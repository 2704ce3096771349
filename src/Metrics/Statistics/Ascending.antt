-- ===== src/Metrics/Statistics/Ascending.antt =====
-- Lists of numbers in order, as metrics/statistics.py sorts its samples, and what is counted in them.
use kafka_order_event_platfo.Prelude.{
  ℕ, zero, suc, ◌+◌, ◌≤◌, ◌<◌, ◌≡◌, refl, ap, ◌∙◌, Bool, true, false, some, List, [], ◌∷◌, length,
  ltb, leb, nat_eq, nat_beq_iff, elem, All, All-elem, arith, if◌then◌else◌, if_split,
}
use kafka_order_event_platfo.Outcome.{ok}
use kafka_order_event_platfo.Sorting.{sorted, insert_sorted, All-insert_sorted}
use kafka_order_event_platfo.Metrics.Statistics.{item_at}

-- how many items pass a test
abbrev pub count : (ℕ → Bool) → List ℕ → ℕ
count p [] = 0
count p (x ∷ l) = (if p x then 1 else 0) + count p l

pub count-insert_sorted :
    (p : ℕ → Bool) (x : ℕ) (l : List ℕ) → count p (insert_sorted leb x l) ≡ count p (x ∷ l)
count-insert_sorted p x [] = refl
count-insert_sorted p x (y ∷ l) = ground (arith, count-insert_sorted p x l)

pub count-sorted : (p : ℕ → Bool) (l : List ℕ) → count p (sorted leb l) ≡ count p l
unfolding sorted
count-sorted p [] = refl
count-sorted p (x ∷ l) = ground (arith, count-insert_sorted p x (sorted leb l), count-sorted p l)

pub length-insert_sorted : (x : ℕ) (l : List ℕ) → length (insert_sorted leb x l) ≡ suc (length l)
length-insert_sorted x [] = refl
length-insert_sorted x (y ∷ l) = ground (arith, length-insert_sorted x l)

pub length-sorted : (l : List ℕ) → length (sorted leb l) ≡ length l
unfolding sorted
length-sorted [] = refl
length-sorted (x ∷ l) = length-insert_sorted x (sorted leb l) ∙ ap suc (length-sorted l)

abbrev pub Ascending : List ℕ → Type 0
Ascending [] = Unit
Ascending (x ∷ l) = All (λ y. x ≤ y) l × Ascending l

pub All-below : (x y : ℕ) (l : List ℕ) → x ≤ y → All (λ z. y ≤ z) l → All (λ z. x ≤ z) l
All-below x y [] le h = tt
All-below x y (z ∷ l) le h = (omega (arith, le, h.0), All-below x y l le h.1)

pub le_of : (x y : ℕ) → leb x y ≡ true → x ≤ y
le_of x y e = ground (arith, e)

pub gt_of : (x y : ℕ) → leb x y ≡ false → y < x
gt_of x y e = ground (arith, e)

pub insert_sorted-Ascending : (x : ℕ) (l : List ℕ) → Ascending l → Ascending (insert_sorted leb x l)
insert_sorted-Ascending x [] h = (tt, tt)
insert_sorted-Ascending x (y ∷ l) h =
    if_split Ascending (leb x y) (λ le. ((le_of x y le, All-below x y l (le_of x y le) h.0), h))
      (λ gt. (
        All-insert_sorted leb (λ z. y ≤ z) x l (omega (arith, gt_of x y gt)) h.0,
        insert_sorted-Ascending x l h.1,
      ))

pub sorted-Ascending : (l : List ℕ) → Ascending (sorted leb l)
unfolding sorted
sorted-Ascending [] = tt
sorted-Ascending (x ∷ l) = insert_sorted-Ascending x (sorted leb l) (sorted-Ascending l)

pub none_below : (v : ℕ) (l : List ℕ) → All (λ y. v ≤ y) l → count (λ x. ltb x v) l ≡ 0
none_below v [] h = refl
none_below v (x ∷ l) h = ground (arith, h.0, none_below v l h.1)

-- An item of a list in order, with what is on either side of it.
pub at_rank :
    (l : List ℕ) (index : ℕ)
    → Ascending l
    → index < length l
    → (v : ℕ) × (item_at l index ≡ ok (some v))
      × (elem v l ≡ true)
      × (index < count (λ x. leb x v) l)
      × (count (λ x. ltb x v) l ≤ index)
at_rank [] index h inside = absurd (ground (arith, inside))
at_rank (x ∷ l) zero h inside =
    (x, refl, ground (arith, nat_beq_iff x x), ground arith, ground (arith, none_below x l h.0))
at_rank (x ∷ l) (suc index) h inside =
    let (v, at, there, low, high) = at_rank l index h.1 (omega (arith, inside)) in
    (
      v,
      at,
      ground (arith, there),
      ground (arith, low, All-elem (λ y. x ≤ y) l v h.0 there),
      ground (arith, high),
    )
