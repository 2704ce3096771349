-- ===== src/Generator/Factory/Remembered.antt =====
-- The histories that `EventFactory` of generator/factory.py keeps for duplicates are queues of bounded
-- length.
use mathlib.Core.List.{append_assoc, append-nil}
use kafka_order_event_platfo.Prelude.{
  ℕ, zero, suc, ◌+◌, ◌%◌, ◌≤◌, ◌<◌, ◌≡◌, refl, sym, ap, ◌∙◌, List, [], ◌∷◌, ◌++◌, length,
  length-append, ltb, if◌then◌else◌, arith, true, false, Bool-cases, inl, inr,
}
use kafka_order_event_platfo.Generator.Records.{GeneratedRecord}
use kafka_order_event_platfo.Generator.Factory.History.{
  duplicate_history_limit, set_item, remember_in,
}

module _ {ℓ} {A : Type ℓ} where
  abbrev pub take : ℕ → List A → List A
  take zero l = []
  take (suc n) [] = []
  take (suc n) (x ∷ l) = x ∷ take n l

  abbrev pub drop : ℕ → List A → List A
  drop zero l = l
  drop (suc n) [] = []
  drop (suc n) (x ∷ l) = drop n l

  abbrev pub tail : List A → List A
  tail [] = []
  tail (x ∷ l) = l

  tail-drop : (n : ℕ) (l m : List A) → n < length l → tail (drop n l ++ m) ≡ drop (suc n) l ++ m
  tail-drop n [] m inside = absurd (omega (arith, inside))
  tail-drop zero (x ∷ l) m inside = refl
  tail-drop (suc n) (x ∷ l) m inside = tail-drop n l m (omega (arith, inside))

  drop_all : (n : ℕ) (l : List A) → n ≡ length l → drop n l ≡ []
  drop_all zero [] e = refl
  drop_all zero (x ∷ l) e = absurd (omega (arith, e))
  drop_all (suc n) [] e = refl
  drop_all (suc n) (x ∷ l) e = drop_all n l (omega (arith, e))

drop-set_item :
    (n : ℕ) (r : GeneratedRecord) (l : List GeneratedRecord)
    → drop (suc n) (set_item n r l) ≡ drop (suc n) l
drop-set_item n r [] = refl
drop-set_item zero r (x ∷ l) = refl
drop-set_item (suc n) r (x ∷ l) = drop-set_item n r l

take-set_item :
    (n : ℕ) (r : GeneratedRecord) (l : List GeneratedRecord)
    → n < length l
    → take (suc n) (set_item n r l) ≡ take n l ++ r ∷ []
take-set_item n r [] inside = absurd (omega (arith, inside))
take-set_item zero r (x ∷ l) inside = refl
take-set_item (suc n) r (x ∷ l) inside =
    ap (λ m. x ∷ m) (take-set_item n r l (omega (arith, inside)))

set_last :
    (n : ℕ) (r : GeneratedRecord) (l : List GeneratedRecord)
    → suc n ≡ length l
    → set_item n r l ≡ take n l ++ r ∷ []
set_last n r [] e = absurd (omega (arith, e))
set_last zero r (x ∷ []) e = refl
set_last zero r (x ∷ y ∷ l) e = absurd (omega (arith, e))
set_last (suc n) r (x ∷ l) e = ap (λ m. x ∷ m) (set_last n r l (omega (arith, e)))

length-set_item :
    (n : ℕ) (r : GeneratedRecord) (l : List GeneratedRecord) → length (set_item n r l) ≡ length l
length-set_item n r [] = refl
length-set_item zero r (x ∷ l) = refl
length-set_item (suc n) r (x ∷ l) = omega (arith, length-set_item n r l)

-- A history is within its limit, and its cursor inside the limit; the cursor is 0 until the history
-- is full.
pub record IsHistory (history : List GeneratedRecord) (cursor : ℕ) : Type 0 where
  pub bounded : length history ≤ duplicate_history_limit
  pub inside : cursor < duplicate_history_limit
  pub at_start : length history < duplicate_history_limit → cursor ≡ 0

-- the records from the oldest to the newest: the oldest one stands at the cursor
abbrev pub in_order : List GeneratedRecord → ℕ → List GeneratedRecord
in_order history cursor = drop cursor history ++ take cursor history

-- a queue of bounded length: a record goes in at the end, and pushes out the oldest one if need be
abbrev pub pushed : GeneratedRecord → List GeneratedRecord → List GeneratedRecord
pushed r queue =
    if ltb (length queue) duplicate_history_limit then queue ++ r ∷ [] else tail queue ++ r ∷ []

length-in_order : (n : ℕ) (l : List GeneratedRecord) → length (in_order l n) ≡ length l
length-in_order zero l = ap length (append-nil l)
length-in_order (suc n) [] = refl
length-in_order (suc n) (x ∷ l) = omega (
  arith,
  length-in_order n l,
  length-append (drop n l) (take n l),
  length-append (drop n l) (x ∷ take n l),
)

less_of : (a b : ℕ) → ltb a b ≡ true → a < b
less_of a b e = ground (arith, e)

least_of : (a b : ℕ) → ltb a b ≡ false → b ≤ a
least_of a b e = ground (arith, e)

-- The record at the cursor is replaced, and the next one is the oldest then.
replaced :
    (n : ℕ) (r : GeneratedRecord) (l : List GeneratedRecord)
    → n < length l
    → in_order (set_item n r l) (suc n) ≡ tail (in_order l n) ++ r ∷ []
replaced n r l inside =
    rw (drop-set_item n r l, take-set_item n r l inside, tail-drop n l (take n l) inside)
      (sym (append_assoc (drop (suc n) l) (take n l) (r ∷ [])))

-- After the last record comes the first one.
replaced_last :
    (n : ℕ) (r : GeneratedRecord) (l : List GeneratedRecord)
    → suc n ≡ length l
    → in_order (set_item n r l) 0 ≡ tail (in_order l n) ++ r ∷ []
replaced_last n r l e =
    append-nil (set_item n r l)
    ∙ set_last n r l e
    ∙ ap (λ m. (m ++ take n l) ++ r ∷ []) (sym (drop_all (suc n) l e))
    ∙ ap (λ m. m ++ r ∷ []) (sym (tail-drop n l (take n l) (omega (arith, e))))

-- A history that is full stays so, and its oldest record goes.
full-pushed :
    (r : GeneratedRecord) (history : List GeneratedRecord) (cursor : ℕ)
    → length history ≡ duplicate_history_limit
    → cursor < duplicate_history_limit
    → in_order (set_item cursor r history) ((cursor + 1) % duplicate_history_limit)
      ≡ tail (in_order history cursor) ++ r ∷ []
full-pushed r history cursor full inside =
    elim (Bool-cases (ltb (cursor + 1) duplicate_history_limit)) [
      | inl more ↦
          let next : (cursor + 1) % duplicate_history_limit ≡ suc cursor =
            omega (arith, less_of (cursor + 1) duplicate_history_limit more) in
          rw next (replaced cursor r history (omega (arith, full, inside)))
      | inr last ↦
          let next : (cursor + 1) % duplicate_history_limit ≡ 0 =
            omega (arith, inside, least_of (cursor + 1) duplicate_history_limit last) in
          rw next (
            replaced_last cursor r history
              (omega (arith, full, inside, least_of (cursor + 1) duplicate_history_limit last)))
    ]

-- Let a history be within its limit, with its cursor at the oldest record once it is full, and at 0
-- before. When a record is remembered, it goes to the end of the records in their order; if the
-- history was full, just its oldest record is given up for it; and the history has these
-- properties again.
pub remember_in-pushed :
    (r : GeneratedRecord) (history : List GeneratedRecord) (cursor : ℕ)
    → IsHistory history cursor
    → let (next, moved) = remember_in r history cursor in
      IsHistory next moved × (in_order next moved ≡ pushed r (in_order history cursor))
unfolding remember_in
remember_in-pushed r history cursor h =
    elim (Bool-cases (ltb (length history) duplicate_history_limit)) [
      | inl room ↦
          let start = h.at_start (less_of (length history) duplicate_history_limit room) in
          rw (room, length-in_order cursor history)
            (
              record {
                bounded = omega (
                  arith,
                  less_of (length history) duplicate_history_limit room,
                  length-append history (r ∷ []),
                );
                inside = h.inside;
                at_start = λ _. start;
              },
              rw (room, start)
                  (append-nil (history ++ r ∷ [])
                    ∙ ap (λ l. l ++ r ∷ []) (sym (append-nil history))),
            )
      | inr full ↦
          let least = least_of (length history) duplicate_history_limit full in
          let here : length history ≡ duplicate_history_limit = omega (arith, h.bounded, least) in
          rw (full, length-in_order cursor history)
            (
              record {
                bounded = omega (arith, length-set_item cursor r history, here);
                inside = omega arith;
                at_start =
                    λ less. absurd (omega (arith, less, length-set_item cursor r history, here));
              },
              rw full (full-pushed r history cursor here h.inside),
            )
    ]
