-- ===== src/DataPlatform/Redaction/Paths.antt =====
-- What `redact` of metadata_security.py leaves at each place of a document.
use kafka_order_event_platfo.Prelude.{
  ℕ, zero, suc, String, true, false, ◌≡◌, refl, sym, ap, ◌∙◌, subst, Option, none, some, List, [],
  ◌∷◌, ◌++◌, if◌then◌else◌, ◌==◌, string_eq, arith, Bool-cases, inl, inr,
}
use kafka_order_event_platfo.DataPlatform.Values.{
  Value, null, bool, int, float, text, array, object, Items, nil, cons, Fields, end, field,
}
use kafka_order_event_platfo.DataPlatform.Redaction.{redact, redact_items, redact_fields}
use kafka_order_event_platfo.DataPlatform.Redaction.Patterns.{is_secret_key, scrub}
use kafka_order_event_platfo.DataPlatform.Redaction.Places.{
  Step, at_key, at_index, value_of, item_of, child, follow, get, secret_step, is_open, names,
  count_items, IsShown, IsPlace, hidden, IsRedacted,
}

-- the program's redaction
abbrev pub redacted : Value → Value
redacted v = redact is_secret_key scrub v

count-redact_items :
    (vs : Items) → count_items (redact_items is_secret_key scrub vs) ≡ count_items vs
unfolding redact_items
count-redact_items nil = refl
count-redact_items (cons v vs) = ap suc (count-redact_items vs)

names-redact_fields : (fs : Fields) → names (redact_fields is_secret_key scrub fs) ≡ names fs
unfolding redact_fields
names-redact_fields end = refl
names-redact_fields (field k v fs) = ap (λ ks. k ∷ ks) (names-redact_fields fs)

redacted-IsShown : (v : Value) → IsShown v (redacted v)
unfolding redact
redacted-IsShown null = refl
redacted-IsShown (bool b) = refl
redacted-IsShown (int z) = refl
redacted-IsShown (float z r) = refl
redacted-IsShown (text s) = refl
redacted-IsShown (array vs) = (redact_items is_secret_key scrub vs, refl, count-redact_items vs)
redacted-IsShown (object fs) = (redact_fields is_secret_key scrub fs, refl, names-redact_fields fs)

-- what redaction makes of the value under a step
abbrev shown_at : Step → Value → Value
shown_at step v = if secret_step step then text "[REDACTED]" else redacted v

abbrev shown : Step → Option Value → Option Value
shown step none = none
shown step (some v) = some (shown_at step v)

item-redact_items :
    (n : ℕ) (vs : Items)
    → item_of n (redact_items is_secret_key scrub vs) ≡ shown (at_index n) (item_of n vs)
unfolding redact_items
item-redact_items n nil = refl
item-redact_items zero (cons v vs) = refl
item-redact_items (suc n) (cons v vs) = item-redact_items n vs

value-redact_fields :
    (k : String) (fs : Fields)
    → value_of k (redact_fields is_secret_key scrub fs) ≡ shown (at_key k) (value_of k fs)
unfolding redact_fields
value-redact_fields k end = refl
value-redact_fields k (field j v fs) = elim (Bool-cases (j == k)) [
  | inl same ↦ rw same (
      ap (λ i. some (if is_secret_key i then text "[REDACTED]" else redacted v))
        ((string_eq.beq_iff j k).0 same))
  | inr other ↦ rw other (value-redact_fields k fs)
]

child-redacted : (step : Step) (v : Value) → child step (redacted v) ≡ shown step (child step v)
unfolding redact
child-redacted (at_key k) (object fs) = value-redact_fields k fs
child-redacted (at_index n) (array vs) = item-redact_items n vs
child-redacted (at_key k) null = refl
child-redacted (at_key k) (bool b) = refl
child-redacted (at_key k) (int z) = refl
child-redacted (at_key k) (float z r) = refl
child-redacted (at_key k) (text s) = refl
child-redacted (at_key k) (array vs) = refl
child-redacted (at_index n) null = refl
child-redacted (at_index n) (bool b) = refl
child-redacted (at_index n) (int z) = refl
child-redacted (at_index n) (float z r) = refl
child-redacted (at_index n) (text s) = refl
child-redacted (at_index n) (object fs) = refl

follow-none : (path : List Step) → follow path none ≡ none
follow-none [] = refl
follow-none (step ∷ path) = refl

follow-append : (p q : List Step) (m : Option Value) → follow (p ++ q) m ≡ follow q (follow p m)
follow-append [] q m = refl
follow-append (step ∷ p) q none = sym (follow-none q)
follow-append (step ∷ p) q (some v) = follow-append p q (child step v)

abbrev redacted_option : Option Value → Option Value
redacted_option none = none
redacted_option (some v) = some (redacted v)

open_step :
    (step : Step) (m : Option Value) → secret_step step ≡ false → shown step m ≡ redacted_option m
open_step step none e = refl
open_step step (some v) e = rw e refl

follow-redacted :
    (path : List Step) (m : Option Value)
    → is_open path ≡ true
    → follow path (redacted_option m) ≡ redacted_option (follow path m)
follow-redacted [] m clear = refl
follow-redacted (step ∷ path) none clear = refl
follow-redacted (step ∷ path) (some v) clear =
    let outside : secret_step step ≡ false = ground (arith, clear) in
    ap (follow path) (child-redacted step v ∙ open_step step (child step v) outside)
    ∙ follow-redacted path (child step v) (ground (arith, clear))

-- what stands under a secret key, and below it
under_secret :
    (path : List Step) (k : String) (rest : List Step) (v : Value)
    → is_open path ≡ true
    → get (path ++ at_key k ∷ rest) (redacted v)
      ≡ follow (at_key k ∷ rest) (redacted_option (get path v))
under_secret path k rest v clear =
    follow-append path (at_key k ∷ rest) (some (redacted v))
    ∙ ap (follow (at_key k ∷ rest)) (follow-redacted path (some v) clear)

option-IsPlace : (m : Option Value) → IsPlace m (redacted_option m)
option-IsPlace none = refl
option-IsPlace (some v) = (redacted v, refl, redacted-IsShown v)

shown-hidden :
    (k : String) (m : Option Value) → is_secret_key k ≡ true → shown (at_key k) m ≡ hidden m
shown-hidden k none secret = refl
shown-hidden k (some v) secret = rw secret refl

secret_value :
    (k : String) (m : Option Value)
    → is_secret_key k ≡ true
    → follow (at_key k ∷ []) (redacted_option m) ≡ hidden (follow (at_key k ∷ []) m)
secret_value k none secret = refl
secret_value k (some v) secret =
    child-redacted (at_key k) v ∙ shown-hidden k (child (at_key k) v) secret

child-hidden :
    (step : Step) (rest : List Step) (m : Option Value) → follow (step ∷ rest) (hidden m) ≡ none
child-hidden step rest none = refl
child-hidden (at_key k) rest (some v) = follow-none rest
child-hidden (at_index n) rest (some v) = follow-none rest

below_secret :
    (k : String) (step : Step) (rest : List Step) (m : Option Value)
    → is_secret_key k ≡ true
    → follow (at_key k ∷ step ∷ rest) (redacted_option m) ≡ none
below_secret k step rest none secret = refl
below_secret k step rest (some v) secret =
    ap (follow (step ∷ rest))
      (child-redacted (at_key k) v ∙ shown-hidden k (child (at_key k) v) secret)
    ∙ child-hidden step rest (child (at_key k) v)

-- What `redact` makes of a document, with SECRET_KEY, CONNECTION and BEARER as they are in the source:
-- at each path that goes through no secret key, the redacted document has a value just if the
-- document has one, a text scrubbed, a list with as many items, a dict with the same keys in the
-- same order, and any other value as it was; at a secret key at the end of such a path, where the
-- document has any value at all, it has the text `[REDACTED]`, and it has nothing below.
pub redact-IsRedacted : (v : Value) → IsRedacted v (redact is_secret_key scrub v)
redact-IsRedacted v = record {
  kept = λ path clear.
      subst (IsPlace (get path v)) (sym (follow-redacted path (some v) clear))
        (option-IsPlace (get path v));
  replaced = λ path k clear secret.
      under_secret path k [] v clear
      ∙ secret_value k (get path v) secret
      ∙ ap hidden (sym (follow-append path (at_key k ∷ []) (some v)));
  closed = λ path k step rest clear secret.
      under_secret path k (step ∷ rest) v clear ∙ below_secret k step rest (get path v) secret;
}
