-- ===== src/DataPlatform/Metadata/Walk/Lineage.antt =====
-- The walk of metadata_service.py against the assets that can be reached.
use kafka_order_event_platfo.Prelude.{
  ℕ, zero, ◌≤◌, String, Bool, true, false, not, List, [], ◌∷◌, ◌≡◌, refl, subst, ◌∙◌, arith,
  beq_refl, All, All-map, All-elem, Bool-cases, ◌⊎◌, inl, inr, some, elem, string_eq, ◌==◌, length,
  filter, if_split,
}
use kafka_order_event_platfo.Dict.{Dict, lookup}
use kafka_order_event_platfo.Text.{le_text}
use kafka_order_event_platfo.Sorting.{All-sorted, elem-sorted}
use kafka_order_event_platfo.DataPlatform.Metadata.{AssetMetadata}
use kafka_order_event_platfo.DataPlatform.Metadata.Walk.{
  max_lineage_nodes, Direction, neighbours_of, WalkState, first_state, expand, walk, walked,
  nodes_of, edges_of, le_edge,
}
use kafka_order_event_platfo.DataPlatform.Metadata.Walk.Ends.{IsBounded, expand-IsBounded}
use kafka_order_event_platfo.DataPlatform.Metadata.Walk.Rule.{rounds_rule}
use kafka_order_event_platfo.DataPlatform.Metadata.Walk.Complete.{
  IsCovered, IsExpanded, expand-IsCovered,
}
use kafka_order_event_platfo.DataPlatform.Metadata.Walk.Sound.{
  Steps, here, next, IsNear, IsEdge, IsSound, expand-IsSound,
}

All-filter {ℓ} :
    {A : Type ℓ} (P : A → Type 0) (p : A → Bool) (xs : List A)
    → All P xs
    → All (λ a. P a × (p a ≡ true)) (filter p xs)
All-filter P p [] h = tt
All-filter P p (x ∷ xs) h =
    let rest = All-filter P p xs h.1 in
    if_split (All (λ a. P a × (p a ≡ true))) (p x) (λ yes'. ((h.0, yes'), rest)) (λ _. rest)

elem-filter :
    (p : String → Bool) (a : String) (xs : List String)
    → elem a xs ≡ true
    → p a ≡ true
    → elem a (filter p xs) ≡ true
elem-filter p a [] h e = cc
elem-filter p a (x ∷ xs) h e = ground (arith, string_eq.beq_iff x a, elem-filter p a xs)

module _ (assets : Dict String AssetMetadata) (d : Direction) (max_depth : ℕ) (start : String) where
  -- What the three results of a walk are.
  pub record IsLineage (s : WalkState) : Type 0 where
    pub bounded : length s.visited ≤ max_lineage_nodes
    pub near :
        All (λ n. IsNear assets d max_depth start n × (not (n == start) ≡ true)) (nodes_of start s)
    pub real : All (IsEdge assets d max_depth start) (edges_of s)
    pub whole :
        s.truncated ≡ false
        → (k : ℕ) (n : String) → Steps assets d max_depth start k n
        → (n ≡ start) ⊎ (elem n (nodes_of start s) ≡ true)

  abbrev Invariant : WalkState → Type 0
  Invariant s = IsBounded s × IsSound assets d max_depth start s × IsCovered assets d max_depth s

  keep :
      (s : WalkState) (current : String) (depth : ℕ) (rest : List (String × ℕ)) (a : AssetMetadata)
      → s.frontier ≡ (current, depth) ∷ rest
      → lookup current assets ≡ some a
      → Invariant s
      → Invariant (
          expand assets d max_depth current depth
            (neighbours_of d a)
            (record s { frontier = rest }))
  keep s current depth rest a e found (bounded, sound, covered) =
      let bounded' =
        expand-IsBounded assets d max_depth current depth (neighbours_of d a)
          (record s { frontier = rest }) bounded in
      (
        bounded'.0,
        expand-IsSound assets d max_depth start s current depth rest a e found sound,
        expand-IsCovered assets d max_depth s current depth rest a e found covered,
      )

  first_state-Invariant : Invariant (first_state start)
  first_state-Invariant = (
    omega arith,
    record {
      near = ((zero, here, omega arith), tt);
      waiting = ((here, omega arith), tt);
      real = tt;
      started = ground (arith, beq_refl start);
    },
    λ _. (inl (ground (arith, beq_refl start)), tt),
  )

  -- Where nothing waits, each visited asset is expanded, and whatever is reached is visited.
  reached-visited :
      (s : WalkState)
      → elem start s.visited ≡ true
      → All (IsExpanded assets d max_depth s.visited) s.visited
      → {k : ℕ} {n : String} → Steps assets d max_depth start k n
      → elem n s.visited ≡ true
  reached-visited s started closed here = started
  reached-visited s started closed (next {u = u} {a = a} {n = n} before found m) =
      let (b, found', all) =
        All-elem (IsExpanded assets d max_depth s.visited) s.visited u closed
          (reached-visited s started closed before) in
      let same : b ≡ a = ground (arith, found, found') in
      All-elem (λ v. elem v s.visited ≡ true) (neighbours_of d a) n
        (subst (λ (c : AssetMetadata). All (λ v. elem v s.visited ≡ true) (neighbours_of d c)) same
          all)
        m

  -- Walk from an asset, in a direction and to a depth, through an index of any form. If the walk
  -- returns, it has visited at most 200 assets; each asset that it gives is another one than the
  -- start, and can be reached from it within the depth; each edge that it gives joins an indexed
  -- asset and one of its neighbours; and unless the walk says that it was truncated, it gives every
  -- asset that can be reached from the start in any number of steps.
  pub walk-IsLineage : (s : WalkState) → walk assets d max_depth start ≡ walked s → IsLineage s
  unfolding walk
  walk-IsLineage s h =
      let ((bounded, sound, covered), ended) =
        rounds_rule assets d max_depth Invariant keep max_lineage_nodes (first_state start)
          ((start, 0) ∷ []) s refl first_state-Invariant h in
      record {
        bounded = bounded;
        near = All-sorted le_text _ (filter (λ n. not (n == start)) s.visited) (
            All-filter (IsNear assets d max_depth start) (λ n. not (n == start)) s.visited
              sound.near);
        real = All-sorted le_edge (IsEdge assets d max_depth start) s.edges sound.real;
        whole = λ complete k n steps.
            let closed =
              All-map _ (IsExpanded assets d max_depth s.visited) s.visited
                (λ v c. elim c [
                  | inl waits ↦ absurd (ground (arith, waits, ended))
                  | inr done ↦ done
                ])
                (covered complete) in
            let visited = reached-visited s sound.started closed steps in
            elim (Bool-cases (n == start)) [
              | inl same ↦ inl ((string_eq.beq_iff n start).0 same)
              | inr other ↦ inr (
                  elem-sorted le_text n (filter (λ m. not (m == start)) s.visited)
                  ∙ elem-filter (λ m. not (m == start)) n s.visited visited (ground (arith, other)))
            ];
      }
