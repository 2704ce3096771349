-- ===== src/DataPlatform/Metadata/Walk/Sound.antt =====
-- What the walk of metadata_service.py finds can be reached, by edges that are there.
use kafka_order_event_platfo.Prelude.{
  ℕ, zero, suc, ◌≤◌, leb, String, true, List, [], ◌∷◌, ◌≡◌, refl, subst, arith, All, All-append,
  if_split, length, some, elem, string_eq, pair_eq, elem-append, All-elem_self,
}
use kafka_order_event_platfo.Dict.{Dict, lookup}
use kafka_order_event_platfo.DataPlatform.Metadata.{AssetMetadata}
use kafka_order_event_platfo.DataPlatform.Metadata.Walk.{
  max_lineage_nodes, Direction, neighbours_of, WalkState, visit, visit_all, expand, edge_of,
}

module _ (assets : Dict String AssetMetadata) (d : Direction) (max_depth : ℕ) (start : String) where
  -- An asset that is some steps from the start.
  pub data Steps : ℕ → String → Type 0 where
    here : Steps zero start
    next :
        {k : ℕ} {u : String} {a : AssetMetadata} {n : String}
        → Steps k u
        → lookup u assets ≡ some a
        → elem n (neighbours_of d a) ≡ true
        → Steps (suc k) n

  abbrev pub IsNear : String → Type 0
  IsNear v = (k : ℕ) × Steps k v × (k ≤ max_depth)

  -- An edge between an indexed asset and one of its neighbours.
  abbrev pub IsEdge : String × String → Type 0
  IsEdge e =
      (u : String) × (a : AssetMetadata) × (n : String) × (lookup u assets ≡ some a)
      × (elem n (neighbours_of d a) ≡ true)
      × (e ≡ edge_of d u n)

  abbrev Waits : String × ℕ → Type 0
  Waits w = Steps w.1 w.0 × (w.1 ≤ max_depth)

  pub record IsSound (s : WalkState) : Type 0 where
    pub near : All IsNear s.visited
    pub waiting : All Waits s.frontier
    pub real : All IsEdge s.edges
    pub started : elem start s.visited ≡ true

  module _ (current : String) (depth : ℕ) (a : AssetMetadata)
      (found : lookup current assets ≡ some a) (reached : Steps depth current)
      (room : suc depth ≤ max_depth) where
    visit-IsSound :
        (n : String) (s : WalkState)
        → elem n (neighbours_of d a) ≡ true
        → IsSound s
        → IsSound (visit d current depth n s)
    unfolding visit
    visit-IsSound n s m h =
        let edges =
          if_split (All IsEdge) (elem (edge_of d current n) s.edges) (λ _. h.real)
            (λ _.
              All-append IsEdge s.edges (edge_of d current n ∷ []) h.real
                ((current, a, n, found, m, refl), tt)) in
        let step : Steps (suc depth) n = next reached found m in
        if_split IsSound (elem n s.visited)
          (λ _. record { near = h.near; waiting = h.waiting; real = edges; started = h.started })
          (λ _.
            if_split IsSound (leb max_lineage_nodes (length s.visited))
              (λ _. record {
                near = h.near;
                waiting = h.waiting;
                real = edges;
                started = h.started;
              })
              (λ _. record {
                near = All-append IsNear s.visited (n ∷ []) h.near ((suc depth, step, room), tt);
                waiting =
                    All-append Waits s.frontier ((n, suc depth) ∷ []) h.waiting ((step, room), tt);
                real = edges;
                started = ground (arith, h.started, elem-append start s.visited (n ∷ []));
              }))

    visit_all-IsSound :
        (ns : List String) (s : WalkState)
        → All (λ n. elem n (neighbours_of d a) ≡ true) ns
        → IsSound s
        → IsSound (visit_all d current depth ns s)
    unfolding visit_all
    visit_all-IsSound [] s m h = h
    visit_all-IsSound (n ∷ ns) s m h =
        visit_all-IsSound ns (visit d current depth n s) m.1 (visit-IsSound n s m.0 h)

  pub expand-IsSound :
      (s : WalkState) (current : String) (depth : ℕ) (rest : List (String × ℕ)) (a : AssetMetadata)
      → s.frontier ≡ (current, depth) ∷ rest
      → lookup current assets ≡ some a
      → IsSound s
      → IsSound (
          expand assets d max_depth current depth
            (neighbours_of d a)
            (record s { frontier = rest }))
  unfolding expand
  expand-IsSound s current depth rest a e found h =
      let waiting : All Waits ((current, depth) ∷ rest) = subst (All Waits) e h.waiting in
      if_split IsSound (leb max_depth depth)
        (λ _. record { near = h.near; waiting = waiting.1; real = h.real; started = h.started })
        (λ go.
          visit_all-IsSound current depth a found waiting.0.0 (ground (arith, go))
            (neighbours_of d a) (record s { frontier = rest }) (All-elem_self (neighbours_of d a))
            (record { near = h.near; waiting = waiting.1; real = h.real; started = h.started }))
