-- ===== src/DataPlatform/Metadata/Walk/Complete.antt =====
-- A walk of metadata_service.py that is not truncated misses nothing.
use kafka_order_event_platfo.Prelude.{
  ℕ, suc, leb, String, true, false, List, [], ◌∷◌, ◌++◌, ◌≡◌, sym, subst, arith, All, All-append,
  All-map, Bool-cases, if_split, length, ◌⊎◌, inl, inr, some, elem, elem-append, beq_refl,
  string_eq, ◌==◌,
}
use kafka_order_event_platfo.Dict.{Dict, lookup, keys, keys-append}
use kafka_order_event_platfo.DataPlatform.Metadata.{AssetMetadata}
use kafka_order_event_platfo.DataPlatform.Metadata.Walk.{
  max_lineage_nodes, Direction, neighbours_of, WalkState, visit, visit_all, expand, is_nonempty,
}

abbrev pub IsVisited : WalkState → String → Type 0
IsVisited s v = elem v s.visited ≡ true

-- An asset keeps its place through a visit, and an end that is not truncated was not before.
visit-kept :
    (d : Direction) (current : String) (depth : ℕ) (n : String) (s : WalkState)
    → let t = visit d current depth n s in
      ((v : String) → IsVisited s v → IsVisited t v)
      × ((v : String) → elem v (keys s.frontier) ≡ true → elem v (keys t.frontier) ≡ true)
      × (t.truncated ≡ false → (s.truncated ≡ false) × IsVisited t n)
unfolding visit
visit-kept d current depth n s = (
  λ v h. ground (arith, h, elem-append v s.visited (n ∷ [])),
  λ v h. ground (
    arith,
    h,
    keys-append s.frontier ((n, suc depth) ∷ []),
    elem-append v (keys s.frontier) (n ∷ []),
  ),
  λ whole. ground (arith, whole, elem-append n s.visited (n ∷ []), beq_refl n),
)

pub visit_all-kept :
    (d : Direction) (current : String) (depth : ℕ) (ns : List String) (s : WalkState)
    → let t = visit_all d current depth ns s in
      ((v : String) → IsVisited s v → IsVisited t v)
      × ((v : String) → elem v (keys s.frontier) ≡ true → elem v (keys t.frontier) ≡ true)
      × (t.truncated ≡ false → (s.truncated ≡ false) × All (IsVisited t) ns)
unfolding visit_all
visit_all-kept d current depth [] s = (λ v h. h, λ v h. h, λ whole. (whole, tt))
visit_all-kept d current depth (n ∷ ns) s =
    let first = visit-kept d current depth n s in
    let rest = visit_all-kept d current depth ns (visit d current depth n s) in
    (
      λ v h. rest.0 v (first.0 v h),
      λ v h. rest.1 v (first.1 v h),
      λ whole.
          let (before, others) = rest.2 whole in
          let (start, here) = first.2 before in (start, (rest.0 n here, others)),
    )

-- Every visited asset waits, or has a property.
abbrev pub Covers : (List String → String → Type 0) → WalkState → Type 0
Covers D s = All (λ v. (elem v (keys s.frontier) ≡ true) ⊎ D s.visited v) s.visited

-- The property only grows with the visited assets.
module _ (D : List String → String → Type 0)
    (grows : (vs ws : List String) (v : String)
      → ((u : String) → elem u vs ≡ true → elem u ws ≡ true)
      → D vs v
      → D ws v) where
  visit-Covers :
      (d : Direction) (current : String) (depth : ℕ) (n : String) (s : WalkState)
      → Covers D s
      → Covers D (visit d current depth n s)
  unfolding visit
  visit-Covers d current depth n s h =
      let kept = visit-kept d current depth n s in
      if_split (Covers D) (elem n s.visited) (λ _. h)
        (λ new.
          if_split (Covers D) (leb max_lineage_nodes (length s.visited)) (λ _. h)
            (λ room.
              All-append _ s.visited (n ∷ [])
                (All-map _ _ s.visited
                  (λ v c. elim c [
                    | inl waits ↦ inl (
                        ground (
                          arith,
                          waits,
                          keys-append s.frontier ((n, suc depth) ∷ []),
                          elem-append v (keys s.frontier) (n ∷ []),
                        ))
                    | inr has ↦ inr (
                        grows s.visited (s.visited ++ (n ∷ [])) v
                          (λ u m. ground (arith, m, elem-append u s.visited (n ∷ []))) has)
                  ])
                  h)
                (
                  inl (
                      ground (
                        arith,
                        keys-append s.frontier ((n, suc depth) ∷ []),
                        elem-append n (keys s.frontier) (n ∷ []),
                        beq_refl n,
                      )),
                  tt,
                )))

  visit_all-Covers :
      (d : Direction) (current : String) (depth : ℕ) (ns : List String) (s : WalkState)
      → Covers D s
      → Covers D (visit_all d current depth ns s)
  unfolding visit_all
  visit_all-Covers d current depth [] s h = h
  visit_all-Covers d current depth (n ∷ ns) s h =
      visit_all-Covers d current depth ns (visit d current depth n s)
        (visit-Covers d current depth n s h)

no_neighbours : (P : String → Type 0) (ns : List String) → is_nonempty ns ≡ false → All P ns
no_neighbours P [] h = tt
no_neighbours P (n ∷ ns) h = cc

module _ (assets : Dict String AssetMetadata) (d : Direction) (max_depth : ℕ) where
  -- all neighbours have been visited
  abbrev pub IsExpanded : List String → String → Type 0
  IsExpanded vs v =
      (a : AssetMetadata) × (lookup v assets ≡ some a)
      × All (λ n. elem n vs ≡ true) (neighbours_of d a)

  abbrev InWork : String → List String → String → Type 0
  InWork current vs v = (v ≡ current) ⊎ IsExpanded vs v

  InWork-grows :
      (current : String) (vs ws : List String) (v : String)
      → ((u : String) → elem u vs ≡ true → elem u ws ≡ true)
      → InWork current vs v
      → InWork current ws v
  InWork-grows current vs ws v more (inl e) = inl e
  InWork-grows current vs ws v more (inr (a, found, all)) =
      inr (a, found, All-map _ _ (neighbours_of d a) more all)

  -- Unless the walk is truncated, each visited asset waits or is expanded.
  abbrev pub IsCovered : WalkState → Type 0
  IsCovered s = s.truncated ≡ false → Covers IsExpanded s

  -- The asset that is taken from the frontier is in work.
  take_out :
      (vs : List String) (current : String) (depth : ℕ) (rest : List (String × ℕ)) (v : String)
      → (elem v (keys ((current, depth) ∷ rest)) ≡ true) ⊎ IsExpanded vs v
      → (elem v (keys rest) ≡ true) ⊎ InWork current vs v
  take_out vs current depth rest v (inr done) = inr (inr done)
  take_out vs current depth rest v (inl waits) = elim (Bool-cases (current == v)) [
    | inl same ↦ inr (inl (sym ((string_eq.beq_iff current v).0 same)))
    | inr other ↦ inl (ground (arith, waits, other))
  ]

  finish :
      (t : WalkState) (current : String) (a : AssetMetadata)
      → lookup current assets ≡ some a
      → All (IsVisited t) (neighbours_of d a)
      → (v : String) → (elem v (keys t.frontier) ≡ true) ⊎ InWork current t.visited v
      → (elem v (keys t.frontier) ≡ true) ⊎ IsExpanded t.visited v
  finish t current a found all v (inl waits) = inl waits
  finish t current a found all v (inr (inr done)) = inr done
  finish t current a found all v (inr (inl same)) = inr (a, rw same found, all)

  -- An asset with no neighbours is expanded at once.
  settle_stopped :
      (vs : List String) (current : String) (depth : ℕ) (rest : List (String × ℕ))
      (a : AssetMetadata)
      → lookup current assets ≡ some a
      → is_nonempty (neighbours_of d a) ≡ false
      → (v : String) → (elem v (keys ((current, depth) ∷ rest)) ≡ true) ⊎ IsExpanded vs v
      → (elem v (keys rest) ≡ true) ⊎ IsExpanded vs v
  settle_stopped vs current depth rest a found leaf v c =
      elim (take_out vs current depth rest v c) [
        | inl waits ↦ inl waits
        | inr (inr done) ↦ inr done
        | inr (inl same) ↦
            inr (a, rw same found, no_neighbours (λ n. elem n vs ≡ true) (neighbours_of d a) leaf)
      ]

  pub expand-IsCovered :
      (s : WalkState) (current : String) (depth : ℕ) (rest : List (String × ℕ)) (a : AssetMetadata)
      → s.frontier ≡ (current, depth) ∷ rest
      → lookup current assets ≡ some a
      → IsCovered s
      → IsCovered (
          expand assets d max_depth current depth
            (neighbours_of d a)
            (record s { frontier = rest }))
  unfolding expand
  expand-IsCovered s current depth rest a e found h =
      let s' = record s { frontier = rest } in
      if_split IsCovered (leb max_depth depth)
        (λ stop whole.
          All-map _ (λ v. (elem v (keys rest) ≡ true) ⊎ IsExpanded s.visited v) s.visited
            (λ v c. settle_stopped s.visited current depth rest a found (ground (arith, whole)) v (
              subst (λ (f : List (String × ℕ)). (elem v (keys f) ≡ true) ⊎ IsExpanded s.visited v) e
                c))
            (h (ground (arith, whole))))
        (λ go whole.
          let kept = visit_all-kept d current depth (neighbours_of d a) s' in
          let (before, all) = kept.2 whole in
          let t = visit_all d current depth (neighbours_of d a) s' in
          let start =
            All-map _ (λ v. (elem v (keys rest) ≡ true) ⊎ InWork current s.visited v) s.visited
              (λ v c. take_out s.visited current depth rest v (
                subst (λ (f : List (String × ℕ)). (elem v (keys f) ≡ true) ⊎ IsExpanded s.visited v)
                  e c))
              (h before) in
          All-map _ (λ v. (elem v (keys t.frontier) ≡ true) ⊎ IsExpanded t.visited v) t.visited
            (λ v c. finish t current a found all v c)
            (visit_all-Covers (InWork current) (InWork-grows current) d current depth
              (neighbours_of d a) s' start))
