-- ===== src/DataPlatform/Metadata/Walk/Ends.antt =====
-- The walk of metadata_service.py ends, and visits a bounded number of assets.
use kafka_order_event_platfo.Prelude.{
  ℕ, zero, suc, ◌+◌, ◌-◌, ◌≤◌, String, List, [], ◌∷◌, length, length-append, ◌≡◌, ◌≢◌, refl, arith,
  Option-cases, inl, inr, string_eq,
}
use kafka_order_event_platfo.Dict.{Dict, lookup}
use kafka_order_event_platfo.DataPlatform.Metadata.{AssetMetadata}
use kafka_order_event_platfo.DataPlatform.Metadata.Walk.{
  max_lineage_nodes, first_state, Direction, neighbours_of, WalkState, visit, visit_all, expand,
  rounds, walk, out_of_fuel,
}

-- the rounds that a state has left: the assets that wait, and those that may still come
abbrev left : WalkState → ℕ
left s = length s.frontier + (max_lineage_nodes - length s.visited)

abbrev pub IsBounded : WalkState → Type 0
IsBounded s = length s.visited ≤ max_lineage_nodes

visit-IsBounded :
    (d : Direction) (current : String) (depth : ℕ) (n : String) (s : WalkState)
    → IsBounded s
    → IsBounded (visit d current depth n s) × (left (visit d current depth n s) ≡ left s)
unfolding visit
visit-IsBounded d current depth n s h =
    ground (arith, length-append s.visited (n ∷ []), length-append s.frontier ((n, suc depth) ∷ []))

visit_all-IsBounded :
    (d : Direction) (current : String) (depth : ℕ) (ns : List String) (s : WalkState)
    → IsBounded s
    → IsBounded (visit_all d current depth ns s) × (left (visit_all d current depth ns s) ≡ left s)
unfolding visit_all
visit_all-IsBounded d current depth [] s h = (h, refl)
visit_all-IsBounded d current depth (n ∷ ns) s h =
    let (bounded, same) = visit-IsBounded d current depth n s h in
    let (bounded', same') =
      visit_all-IsBounded d current depth ns (visit d current depth n s) bounded in
    (bounded', omega (arith, same, same'))

module _ (assets : Dict String AssetMetadata) (d : Direction) (max_depth : ℕ) where
  pub expand-IsBounded :
      (current : String) (depth : ℕ) (ns : List String) (s : WalkState)
      → IsBounded s
      → IsBounded (expand assets d max_depth current depth ns s)
        × (left (expand assets d max_depth current depth ns s) ≡ left s)
  unfolding expand
  expand-IsBounded current depth ns s h = ground (arith, visit_all-IsBounded d current depth ns s h)

  rounds_end :
      (fuel : ℕ) (s : WalkState) (l : List (String × ℕ))
      → IsBounded s
      → length l + (max_lineage_nodes - length s.visited) ≤ fuel
      → rounds assets d max_depth fuel s l ≢ out_of_fuel
  unfolding rounds
  rounds_end fuel s [] b h = λ e. cc
  rounds_end zero s (x ∷ l) b h = absurd (omega arith)
  rounds_end (suc fuel) s ((current, depth) ∷ rest) b h =
      elim (Option-cases (lookup current assets)) [
        | inl missing ↦ ground (arith, missing)
        | inr (a, found) ↦
            let s' = record s { frontier = rest } in
            let t = expand assets d max_depth current depth (neighbours_of d a) s' in
            let (bounded, same) = expand-IsBounded current depth (neighbours_of d a) s' b in
            let ends = rounds_end fuel t t.frontier bounded (omega (arith, same)) in
            ground (arith, found, ends)
      ]

  -- The loop of the walk ends within the rounds that are given, from every asset.
  pub walk_ends : (start : String) → walk assets d max_depth start ≢ out_of_fuel
  unfolding walk
  walk_ends start =
      rounds_end max_lineage_nodes (first_state start) ((start, 0) ∷ []) (omega arith) (omega arith)
