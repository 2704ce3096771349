-- ===== src/Prelude/Lists.antt =====
-- Lists measured by native numbers, and predicates on lists by recursion.
use Prim.Native.Nat.{ℕ, suc, ◌+◌}
use mathlib.Core.Path.{◌≡◌, refl}
use mathlib.Core.Bool.{Bool, true, false, ◌||◌, ◌&&◌}
use mathlib.Core.List.{List, [], ◌∷◌, ◌++◌, map}
use native.Mathlib.Omega.{arith}
use kafka_order_event_platfo.Prelude.Tests.{Eq, ◌==◌, beq_refl, if◌then◌else◌}

module _ {ℓ} {A : Type ℓ} where
  abbrev pub length : List A → ℕ
  length [] = 0
  length (x ∷ xs) = suc (length xs)

  pub length-append : (xs ys : List A) → length (xs ++ ys) ≡ length xs + length ys
  length-append [] ys = omega arith
  length-append (x ∷ xs) ys = omega (arith, length-append xs ys)

-- Holds of every element.
abbrev pub All {ℓ κ} : {A : Type ℓ} → (A → Type κ) → List A → Type κ
All P [] = Unit
All P (x ∷ xs) = P x × All P xs

pub All-append {ℓ κ} :
    {A : Type ℓ} (P : A → Type κ) (xs ys : List A) → All P xs → All P ys → All P (xs ++ ys)
All-append P [] ys hx hy = hy
All-append P (x ∷ xs) ys hx hy = (hx.0, All-append P xs ys hx.1 hy)

module _ {ℓ} {A : Type ℓ} (p : A → Bool) where
  -- `any(p(x) for x in xs)`
  abbrev pub any : List A → Bool
  any [] = false
  any (x ∷ xs) = p x || any xs

  -- `all(p(x) for x in xs)`
  abbrev pub all : List A → Bool
  all [] = true
  all (x ∷ xs) = p x && all xs

  -- `[x for x in xs if p(x)]`
  abbrev pub filter : List A → List A
  filter [] = []
  filter (x ∷ xs) = let rest = filter xs in if p x then x ∷ rest else rest

  pub any-append : (xs ys : List A) → any (xs ++ ys) ≡ (any xs || any ys)
  any-append [] ys = refl
  any-append (x ∷ xs) ys = ground (arith, any-append xs ys)

module _ {ℓ} {A : Type ℓ} ⦃e : Eq A⦄ where
  -- `x in xs`
  abbrev pub elem : A → List A → Bool
  elem a [] = false
  elem a (x ∷ xs) = x == a || elem a xs

  pub elem-append : (a : A) (xs ys : List A) → elem a (xs ++ ys) ≡ (elem a xs || elem a ys)
  elem-append a [] ys = refl
  elem-append a (x ∷ xs) ys = ground (arith, elem-append a xs ys)

  pub All-elem {κ} : (P : A → Type κ) (xs : List A) (a : A) → All P xs → elem a xs ≡ true → P a
  All-elem P [] a h m = cc
  All-elem P (x ∷ xs) a h m = ground (arith, e.beq_iff x a, All-elem P xs a h.1)

  pub elem-filter : (p : A → Bool) (a : A) (xs : List A) → elem a (filter p xs) ≡ (elem a xs && p a)
  elem-filter p a [] = refl
  elem-filter p a (x ∷ xs) = ground (arith, e.beq_iff x a, elem-filter p a xs)

-- both parts of a list
pub All_parts {ℓ κ} :
    {A : Type ℓ} (P : A → Type κ) (xs ys : List A) → All P (xs ++ ys) → All P xs × All P ys
All_parts P [] ys h = (tt, h)
All_parts P (x ∷ xs) ys h = let (l, r) = All_parts P xs ys h.1 in ((h.0, l), r)

-- what holds of the images of a list holds of its elements
pub All_images {ℓ κ ν} :
    {A : Type ℓ} {B : Type ν} (P : B → Type κ) (f : A → B) (xs : List A)
    → All P (map f xs)
    → All (λ a. P (f a)) xs
All_images P f [] h = tt
All_images P f (x ∷ xs) h = (h.0, All_images P f xs h.1)

pub All-map {ℓ κ ν} :
    {A : Type ℓ} (P : A → Type κ) (Q : A → Type ν) (xs : List A)
    → ((a : A) → P a → Q a)
    → All P xs
    → All Q xs
All-map P Q [] f h = tt
All-map P Q (x ∷ xs) f h = (f x h.0, All-map P Q xs f h.1)

-- the members of a list are its elements
pub All-elem_self {ℓ} : {A : Type ℓ} ⦃e : Eq A⦄ (xs : List A) → All (λ a. elem a xs ≡ true) xs
All-elem_self [] = tt
All-elem_self (x ∷ xs) = (
  ground (arith, beq_refl x),
  All-map (λ a. elem a xs ≡ true) (λ a. elem a (x ∷ xs) ≡ true) xs (λ a h. ground (arith, h))
      (All-elem_self xs),
)

pub elem-map {ℓ κ} :
    {A : Type ℓ} {B : Type κ} ⦃ea : Eq A⦄ ⦃eb : Eq B⦄ (f : A → B) (a : A) (xs : List A)
    → elem a xs ≡ true
    → elem (f a) (map f xs) ≡ true
elem-map f a [] h = cc
elem-map {A} {B} ⦃ea⦄ ⦃eb⦄ f a (x ∷ xs) h =
    ground (arith, ea.beq_iff x a, eb.beq_iff (f x) (f a), elem-map f a xs)

pub any-map {ℓ κ} :
    {A : Type ℓ} {B : Type κ} (p : B → Bool) (f : A → B) (xs : List A)
    → any p (map f xs) ≡ any (λ x. p (f x)) xs
any-map p f [] = refl
any-map p f (x ∷ xs) = ground (arith, any-map p f xs)
