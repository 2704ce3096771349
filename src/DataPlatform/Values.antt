-- ===== src/DataPlatform/Values.antt =====
-- JSON documents as `json.loads` gives them, and what the tools ask of a value of unknown shape.
-- The keys of an object are distinct: of a repeated one `json.loads` keeps the last.
use Prim.Native.Char.{code}
use kafka_order_event_platfo.Prelude.{
  ℕ, String, if◌then◌else◌, Bool, true, false, ◌&&◌, ◌||◌, Option, none, some, List, [], ◌∷◌, leb,
  ◌==◌, string_eq, nat_eq, all,
}
use kafka_order_event_platfo.Prelude.Int.{ℤ, pos, int_eq}
use kafka_order_event_platfo.Dict.{Dict, lookup}

-- A float is its value, where that is integral, and its `repr`.
mutual
  pub data Value : Type 0 where
    null : Value
    bool : Bool → Value
    int : ℤ → Value
    float : Option ℤ → String → Value
    text : String → Value
    array : Items → Value
    object : Fields → Value

  pub data Items : Type 0 where
    nil : Items
    cons : Value → Items → Items

  pub data Fields : Type 0 where
    end : Fields
    field : String → Value → Fields → Fields

abbrev pub items : Items → List Value
items nil = []
items (cons v vs) = v ∷ items vs

abbrev pub entries : Fields → Dict String Value
entries end = []
entries (field k v fs) = (k, v) ∷ entries fs

-- `value if isinstance(value, dict) else None`
abbrev pub as_object : Value → Option (Dict String Value)
as_object (object fs) = some (entries fs)
as_object null = none
as_object (bool _) = none
as_object (int _) = none
as_object (float _ _) = none
as_object (text _) = none
as_object (array _) = none

-- `value if isinstance(value, dict) else {}`
abbrev pub object_or_empty : Value → Dict String Value
object_or_empty v = elim (as_object v) [ none ↦ [] | some d ↦ d ]

-- `d.get(k, {})`, and `{}` where that is no dict
abbrev pub get_object : String → Dict String Value → Dict String Value
get_object k d = elim (lookup k d) [ none ↦ [] | some v ↦ object_or_empty v ]

abbrev pub as_list : Value → Option (List Value)
as_list (array vs) = some (items vs)
as_list null = none
as_list (bool _) = none
as_list (int _) = none
as_list (float _ _) = none
as_list (text _) = none
as_list (object _) = none

abbrev pub as_text : Value → Option String
as_text (text s) = some s
as_text null = none
as_text (bool _) = none
as_text (int _) = none
as_text (float _ _) = none
as_text (array _) = none
as_text (object _) = none

-- `isinstance(value, int)`: in Python a bool is an int too
abbrev pub as_int : Value → Option ℤ
as_int (int z) = some z
as_int (bool true) = some (pos 1)
as_int (bool false) = some (pos 0)
as_int null = none
as_int (float _ _) = none
as_int (text _) = none
as_int (array _) = none
as_int (object _) = none

-- `isinstance(value, int) and not isinstance(value, bool)`
abbrev pub as_plain_int : Value → Option ℤ
as_plain_int (int z) = some z
as_plain_int null = none
as_plain_int (bool _) = none
as_plain_int (float _ _) = none
as_plain_int (text _) = none
as_plain_int (array _) = none
as_plain_int (object _) = none

-- `value is True`
abbrev pub is_true : Option Value → Bool
is_true (some (bool b)) = b
is_true none = false
is_true (some null) = false
is_true (some (int _)) = false
is_true (some (float _ _)) = false
is_true (some (text _)) = false
is_true (some (array _)) = false
is_true (some (object _)) = false

-- `d.get(k) == s`
abbrev pub equals_text : String → Option Value → Bool
equals_text s (some (text t)) = t == s
equals_text s none = false
equals_text s (some null) = false
equals_text s (some (bool _)) = false
equals_text s (some (int _)) = false
equals_text s (some (float _ _)) = false
equals_text s (some (array _)) = false
equals_text s (some (object _)) = false

abbrev pub is_zero : Option ℤ → Bool
is_zero none = false
is_zero (some z) = z == pos 0

abbrev pub no_items : Items → Bool
no_items nil = true
no_items (cons _ _) = false

abbrev pub no_fields : Fields → Bool
no_fields end = true
no_fields (field _ _ _) = false

-- `not value`
abbrev pub is_falsy : Value → Bool
is_falsy null = true
is_falsy (bool true) = false
is_falsy (bool false) = true
is_falsy (int z) = z == pos 0
is_falsy (float z _) = is_zero z
is_falsy (text s) = s == ""
is_falsy (array vs) = no_items vs
is_falsy (object fs) = no_fields fs

-- `c.isspace()`
abbrev pub is_space : ℕ → Bool
is_space c =
    (leb 9 c && leb c 13)
    || (leb 28 c && leb c 32)
    || c == 133
    || c == 160
    || c == 5760
    || (leb 8192 c && leb c 8202)
    || c == 8232
    || c == 8233
    || c == 8239
    || c == 8287
    || c == 12288

abbrev pub codes : String → List ℕ
codes String.[] = []
codes (String.◌∷◌ c s) = code c ∷ codes s

abbrev strip_end : String → String
strip_end String.[] = ""
strip_end (String.◌∷◌ c s) =
    let rest = strip_end s in if is_space (code c) && rest == "" then "" else String.◌∷◌ c rest

-- `s.strip()`
abbrev pub strip : String → String
strip String.[] = ""
strip (String.◌∷◌ c s) =
    let rest = strip s in if is_space (code c) then rest else strip_end (String.◌∷◌ c s)

-- `not s.strip()`
abbrev pub is_blank : String → Bool
is_blank s = all is_space (codes s)

-- `not str(d.get(k, "")).strip()`: the `str` of what is no text has a visible character
abbrev pub is_blank_value : Option Value → Bool
is_blank_value none = true
is_blank_value (some (text s)) = is_blank s
is_blank_value (some null) = false
is_blank_value (some (bool _)) = false
is_blank_value (some (int _)) = false
is_blank_value (some (float _ _)) = false
is_blank_value (some (array _)) = false
is_blank_value (some (object _)) = false
