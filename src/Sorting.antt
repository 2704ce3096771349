-- ===== src/Sorting.antt =====
-- Python's `sorted` with a key: a stable sort, here by insertion from the right.
use kafka_order_event_platfo.Prelude.{
  Bool, List, [], ◌∷◌, if◌then◌else◌, All, Eq, ◌==◌, elem, if_split, any,
}
use kafka_order_event_platfo.Prelude.{◌≡◌, refl, ◌||◌, arith}

module _ {ℓ} {A : Type ℓ} (le : A → A → Bool) where
  abbrev pub insert_sorted : A → List A → List A
  insert_sorted x [] = x ∷ []
  insert_sorted x (y ∷ ys) = if le x y then x ∷ y ∷ ys else y ∷ insert_sorted x ys

  unfoldable pub sorted : List A → List A
  sorted [] = []
  sorted (x ∷ xs) = insert_sorted x (sorted xs)

  module _ {κ} (P : A → Type κ) where
    pub All-insert_sorted : (x : A) (xs : List A) → P x → All P xs → All P (insert_sorted x xs)
    All-insert_sorted x [] p h = (p, tt)
    All-insert_sorted x (y ∷ ys) p h =
        if_split (All P) (le x y) (λ _. (p, h)) (λ _. (h.0, All-insert_sorted x ys p h.1))

    pub All-sorted : (xs : List A) → All P xs → All P (sorted xs)
    unfolding sorted
    All-sorted [] h = tt
    All-sorted (x ∷ xs) h = All-insert_sorted x (sorted xs) h.0 (All-sorted xs h.1)

  module _ (p : A → Bool) where
    any-insert_sorted : (x : A) (xs : List A) → any p (insert_sorted x xs) ≡ (p x || any p xs)
    any-insert_sorted x [] = refl
    any-insert_sorted x (y ∷ ys) = ground (arith, any-insert_sorted x ys)

    pub any-sorted : (xs : List A) → any p (sorted xs) ≡ any p xs
    unfolding sorted
    any-sorted [] = refl
    any-sorted (x ∷ xs) = ground (arith, any-insert_sorted x (sorted xs), any-sorted xs)

  module _ ⦃e : Eq A⦄ where
    pub elem-insert_sorted :
        (a x : A) (xs : List A) → elem a (insert_sorted x xs) ≡ (x == a || elem a xs)
    elem-insert_sorted a x [] = refl
    elem-insert_sorted a x (y ∷ ys) = ground (arith, elem-insert_sorted a x ys)

    pub elem-sorted : (a : A) (xs : List A) → elem a (sorted xs) ≡ elem a xs
    unfolding sorted
    elem-sorted a [] = refl
    elem-sorted a (x ∷ xs) = ground (arith, elem-insert_sorted a x (sorted xs), elem-sorted a xs)

-- `sorted(set(xs))`
module _ {ℓ} {A : Type ℓ} ⦃e : Eq A⦄ where
  abbrev pub distinct : List A → List A
  distinct [] = []
  distinct (x ∷ xs) = let rest = distinct xs in if elem x rest then rest else x ∷ rest

  pub elem-distinct : (a : A) (xs : List A) → elem a (distinct xs) ≡ elem a xs
  elem-distinct a [] = refl
  elem-distinct a (x ∷ xs) = ground (arith, elem-distinct a xs, elem-distinct x xs, e.beq_iff x a)
