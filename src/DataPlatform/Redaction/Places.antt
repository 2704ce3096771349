-- ===== src/DataPlatform/Redaction/Places.antt =====
-- The places of a document, and what it is to be redacted as metadata_security.py does it.
use kafka_order_event_platfo.Prelude.{
  ℕ, zero, suc, String, Bool, true, false, ◌&&◌, not, ◌≡◌, Option, none, some, List, [], ◌∷◌, ◌++◌,
  if◌then◌else◌, ◌==◌, string_eq,
}
use kafka_order_event_platfo.DataPlatform.Values.{
  Value, null, bool, int, float, text, array, object, Items, nil, cons, Fields, end, field,
}
use kafka_order_event_platfo.DataPlatform.Redaction.Patterns.{is_secret_key, scrub}

-- A step into a document: to the value of a key, or to an item.
pub data Step : Type 0 where
  at_key : String → Step
  at_index : ℕ → Step

abbrev pub value_of : String → Fields → Option Value
value_of k end = none
value_of k (field j v fs) = if j == k then some v else value_of k fs

abbrev pub item_of : ℕ → Items → Option Value
item_of n nil = none
item_of zero (cons v vs) = some v
item_of (suc n) (cons v vs) = item_of n vs

abbrev pub child : Step → Value → Option Value
child (at_key k) (object fs) = value_of k fs
child (at_index n) (array vs) = item_of n vs
child _ v = none

-- the value at a path, of a value that may not be there
abbrev pub follow : List Step → Option Value → Option Value
follow [] m = m
follow (step ∷ path) none = none
follow (step ∷ path) (some v) = follow path (child step v)

abbrev pub get : List Step → Value → Option Value
get path v = follow path (some v)

abbrev pub secret_step : Step → Bool
secret_step (at_key k) = is_secret_key k
secret_step (at_index n) = false

-- whether a path goes through no secret key
abbrev pub is_open : List Step → Bool
is_open [] = true
is_open (step ∷ path) = not (secret_step step) && is_open path

abbrev pub names : Fields → List String
names end = []
names (field k v fs) = k ∷ names fs

abbrev pub count_items : Items → ℕ
count_items nil = 0
count_items (cons v vs) = suc (count_items vs)

-- `u` stands in the redacted document where `v` stands in the document: a text is scrubbed, a list
-- has as many items, a dict the same keys in the same order, and any other value is as it was.
abbrev pub IsShown : Value → Value → Type 0
IsShown null u = u ≡ null
IsShown (bool b) u = u ≡ bool b
IsShown (int z) u = u ≡ int z
IsShown (float z r) u = u ≡ float z r
IsShown (text s) u = u ≡ text (scrub s)
IsShown (array vs) u = (ws : Items) × (u ≡ array ws) × (count_items ws ≡ count_items vs)
IsShown (object fs) u = (gs : Fields) × (u ≡ object gs) × (names gs ≡ names fs)

-- the same for values that may not be there
abbrev pub IsPlace : Option Value → Option Value → Type 0
IsPlace none u = u ≡ none
IsPlace (some v) u = (w : Value) × (u ≡ some w) × IsShown v w

abbrev pub hidden : Option Value → Option Value
hidden none = none
hidden (some v) = some (text "[REDACTED]")

-- `u` is the document `v` without its secrets.
pub record IsRedacted (v u : Value) : Type 0 where
  pub kept : (path : List Step) → is_open path ≡ true → IsPlace (get path v) (get path u)
  pub replaced :
      (path : List Step) (k : String)
      → is_open path ≡ true
      → is_secret_key k ≡ true
      → get (path ++ at_key k ∷ []) u ≡ hidden (get (path ++ at_key k ∷ []) v)
  pub closed :
      (path : List Step) (k : String) (step : Step) (rest : List Step)
      → is_open path ≡ true
      → is_secret_key k ≡ true
      → get (path ++ at_key k ∷ step ∷ rest) u ≡ none
