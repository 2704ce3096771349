-- ===== src/Models/Json.antt =====
-- Decoded JSON, the `JsonValue` of pydantic. Numbers are only carried along, never computed with,
-- so a number is its decimal text.
use kafka_order_event_platfo.Prelude.{Bool, String}

mutual
  pub data Json : Type 0 where
    null : Json
    bool : Bool → Json
    number : String → Json
    text : String → Json
    array : Items → Json
    object : Fields → Json

  pub data Items : Type 0 where
    nil : Items
    cons : Json → Items → Items

  pub data Fields : Type 0 where
    end : Fields
    field : String → Json → Fields → Fields
