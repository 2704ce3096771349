-- ===== src/Dict.antt =====
-- Python's `dict`: an association list in insertion order, for keys of any type with `==`.
use kafka_order_event_platfo.Prelude.{
  ◌≡◌, refl, Option, none, some, List, [], ◌∷◌, arith, Eq, ◌==◌, if◌then◌else◌, All, subst, sym,
  if_split, Bool-cases, inl, inr, elem, ◌||◌, ◌++◌,
}

abbrev pub Dict {ℓ κ} : Type ℓ → Type κ → Type (ℓ ⊔ κ)
Dict K V = List (K × V)

module _ {ℓ κ} {K : Type ℓ} {V : Type κ} where
  abbrev pub keys : Dict K V → List K
  keys [] = []
  keys ((k, _) ∷ d) = k ∷ keys d

  abbrev pub values : Dict K V → List V
  values [] = []
  values ((_, v) ∷ d) = v ∷ values d

  pub keys-append : (d c : Dict K V) → keys (d ++ c) ≡ keys d ++ keys c
  keys-append [] c = refl
  keys-append ((k, _) ∷ d) c = ground (arith, keys-append d c)

module _ {ℓ κ} {K : Type ℓ} {V : Type κ} ⦃e : Eq K⦄ where
  -- `d.get(k)`
  abbrev pub lookup : K → Dict K V → Option V
  lookup k [] = none
  lookup k ((j, v) ∷ d) = if j == k then some v else lookup k d

  -- `d[k] = v`: an existing key keeps its place, a new one goes to the end.
  abbrev pub insert : K → V → Dict K V → Dict K V
  insert k v [] = (k, v) ∷ []
  insert k v ((j, w) ∷ d) = if j == k then (j, v) ∷ d else (j, w) ∷ insert k v d

  -- `d.pop(k, None)`. Keys are distinct, so the first entry is the only one; a second one would
  -- be removed as well.
  abbrev pub erase : K → Dict K V → Dict K V
  erase k [] = []
  erase k ((j, v) ∷ d) = let rest = erase k d in if j == k then rest else (j, v) ∷ rest

  -- `d.setdefault(k, v)`, as far as the dict is concerned
  abbrev pub set_default : K → V → Dict K V → Dict K V
  set_default k v d = elim (lookup k d) [ none ↦ insert k v d | some _ ↦ d ]

  -- `d | e`, or `{**d, **e}`
  abbrev pub update : Dict K V → Dict K V → Dict K V
  update d [] = d
  update d ((k, v) ∷ e) = update (insert k v d) e

  pub lookup-insert :
      (k j : K) (v : V) (d : Dict K V)
      → lookup j (insert k v d) ≡ (if k == j then some v else lookup j d)
  lookup-insert k j v [] = refl
  lookup-insert k j v ((i, w) ∷ d) =
      ground (arith, e.beq_iff k j, e.beq_iff i k, e.beq_iff i j, lookup-insert k j v d)

  pub elem-keys-insert :
      (k j : K) (v : V) (d : Dict K V) → elem j (keys (insert k v d)) ≡ (k == j || elem j (keys d))
  elem-keys-insert k j v [] = refl
  elem-keys-insert k j v ((i, w) ∷ d) =
      ground (arith, elem-keys-insert k j v d, e.beq_iff i k, e.beq_iff i j, e.beq_iff k j)

  pub lookup-erase :
      (k j : K) (d : Dict K V) → lookup j (erase k d) ≡ (if k == j then none else lookup j d)
  lookup-erase k j [] = ground arith
  lookup-erase k j ((i, w) ∷ d) =
      ground (arith, e.beq_iff k j, e.beq_iff i k, e.beq_iff i j, lookup-erase k j d)

  pub lookup-set_default :
      (k j : K) (v : V) (d : Dict K V)
      → lookup j (set_default k v d)
        ≡ elim (lookup j d) [ some w ↦ some w | none ↦ if k == j then some v else none ]
  lookup-set_default k j v d = ground (arith, lookup-insert k j v d, e.beq_iff k j)

  -- No key is listed twice.
  abbrev pub Distinct : Dict K V → Type κ
  Distinct [] = Unit
  Distinct ((k, _) ∷ d) = (lookup k d ≡ none) × Distinct d

  pub lookup-update :
      (k : K) (d c : Dict K V)
      → Distinct c
      → lookup k (update d c) ≡ elim (lookup k c) [ some w ↦ some w | none ↦ lookup k d ]
  lookup-update k d [] h = refl
  lookup-update k d ((j, v) ∷ c) h =
      ground (arith, lookup-update k (insert j v d) c h.1, lookup-insert j k v d, e.beq_iff j k)

  pub insert-Distinct : (k : K) (v : V) (d : Dict K V) → Distinct d → Distinct (insert k v d)
  insert-Distinct k v [] h = (refl, tt)
  insert-Distinct k v ((j, w) ∷ d) h =
      ground (arith, insert-Distinct k v d h.1, lookup-insert k j v d, e.beq_iff k j, e.beq_iff j k)

  pub erase-Distinct : (k : K) (d : Dict K V) → Distinct d → Distinct (erase k d)
  erase-Distinct k [] h = tt
  erase-Distinct k ((j, w) ∷ d) h =
      ground (arith, erase-Distinct k d h.1, lookup-erase k j d, e.beq_iff k j)

-- Dicts whose entries all have a property.
module _ {ℓ κ ν} {K : Type ℓ} {V : Type κ} ⦃e : Eq K⦄ (P : K × V → Type ν) where
  pub All-lookup : (k : K) (v : V) (d : Dict K V) → All P d → lookup k d ≡ some v → P (k, v)
  All-lookup k v [] h found = ground (arith, found)
  All-lookup k v ((j, x) ∷ d) h found = elim (Bool-cases (j == k)) [
    | inl same ↦
        let value : x ≡ v = ground (arith, found, same) in
        subst (λ a. P (a, v)) ((e.beq_iff j k).0 same) (subst (λ y. P (j, y)) value h.0)
    | inr other ↦ All-lookup k v d h.1 (ground (arith, found, other))
  ]

  pub All-insert : (k : K) (v : V) (d : Dict K V) → P (k, v) → All P d → All P (insert k v d)
  All-insert k v [] p h = (p, tt)
  All-insert k v ((j, x) ∷ d) p h =
      if_split (All P) (j == k)
        (λ same. (subst (λ a. P (a, v)) (sym ((e.beq_iff j k).0 same)) p, h.1))
        (λ _. (h.0, All-insert k v d p h.1))

  pub All-erase : (k : K) (d : Dict K V) → All P d → All P (erase k d)
  All-erase k [] h = tt
  All-erase k ((j, x) ∷ d) h =
      if_split (All P) (j == k) (λ _. All-erase k d h.1) (λ _. (h.0, All-erase k d h.1))
