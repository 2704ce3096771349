-- ===== src/DataPlatform/Metadata/Walk.antt =====
-- `_walk` of metadata_service.py: the assets within some steps of one, breadth first.
pub mod Ends
pub mod Rule
pub mod Complete
pub mod Sound
pub mod Lineage
use kafka_order_event_platfo.Prelude.{
  ℕ, zero, suc, ◌+◌, String, Bool, true, false, ◌||◌, Option, none, some, List, [], ◌∷◌, ◌++◌,
  length, elem, leb, ◌==◌, string_eq, pair_eq, if◌then◌else◌, not, filter, ◌&&◌,
}
use kafka_order_event_platfo.Dict.{Dict, lookup, insert}
use kafka_order_event_platfo.Text.{le_text}
use kafka_order_event_platfo.Sorting.{sorted}
use kafka_order_event_platfo.DataPlatform.Metadata.{AssetMetadata}

abbrev pub max_lineage_nodes : ℕ
max_lineage_nodes = 200

pub data Direction : Type 0 where
  upstream downstream : Direction

-- `getattr(asset, direction)`
abbrev pub neighbours_of : Direction → AssetMetadata → List String
neighbours_of upstream a = a.upstream
neighbours_of downstream a = a.downstream

-- `{asset.asset_id: asset for asset in index.assets}`
abbrev pub assets_from : List AssetMetadata → Dict String AssetMetadata → Dict String AssetMetadata
assets_from [] assets = assets
assets_from (a ∷ l) assets = assets_from l (insert a.asset_id a assets)

-- The variables of the loop. The sets are lists without repetition.
pub record WalkState : Type 0 where
  pub visited : List String
  pub frontier : List (String × ℕ)
  pub edges : List (String × String)
  pub truncated : Bool

abbrev pub first_state : String → WalkState
first_state start = record {
  visited = start ∷ [];
  frontier = (start, 0) ∷ [];
  edges = [];
  truncated = false;
}

abbrev pub edge_of : Direction → String → String → String × String
edge_of upstream current neighbour = (neighbour, current)
edge_of downstream current neighbour = (current, neighbour)

abbrev pub add_edge : String × String → List (String × String) → List (String × String)
add_edge e edges = if elem e edges then edges else edges ++ (e ∷ [])

-- one neighbour of the current asset
unfoldable pub visit : Direction → String → ℕ → String → WalkState → WalkState
visit direction current depth neighbour s =
    let edges = add_edge (edge_of direction current neighbour) s.edges in
    if elem neighbour s.visited
    then record s { edges = edges }
    else if leb max_lineage_nodes (length s.visited)
    then record s { edges = edges; truncated = true }
    else record s {
      edges = edges;
      visited = s.visited ++ (neighbour ∷ []);
      frontier = s.frontier ++ ((neighbour, suc depth) ∷ []);
    }

unfoldable pub visit_all : Direction → String → ℕ → List String → WalkState → WalkState
visit_all direction current depth [] s = s
visit_all direction current depth (n ∷ ns) s =
    visit_all direction current depth ns (visit direction current depth n s)

abbrev pub is_nonempty {ℓ} : {A : Type ℓ} → List A → Bool
is_nonempty [] = false
is_nonempty (_ ∷ _) = true

pub data Walked : Type 0 where
  walked : WalkState → Walked
  missing_asset : String → Walked
  out_of_fuel : Walked

module _ (assets : Dict String AssetMetadata) (direction : Direction) (max_depth : ℕ) where
  -- what a round does with the asset that it has taken from the frontier
  unfoldable pub expand : String → ℕ → List String → WalkState → WalkState
  unfolding visit visit_all
  expand current depth neighbours s =
      if leb max_depth depth
      then record s { truncated = s.truncated || is_nonempty neighbours }
      else visit_all direction current depth neighbours s

  -- `while frontier`; fuel bounds the rounds
  unfoldable pub rounds : ℕ → WalkState → List (String × ℕ) → Walked
  unfolding expand
  rounds fuel s [] = walked s
  rounds zero s (_ ∷ _) = out_of_fuel
  rounds (suc fuel) s ((current, depth) ∷ rest) = elim (lookup current assets) [
    | none ↦ missing_asset current
    | some a ↦
        let t = expand current depth (neighbours_of direction a) (record s { frontier = rest }) in
        rounds fuel t t.frontier
  ]

  -- `_walk`: each round takes one asset, and no asset comes twice, so that rounds for the largest
  -- number of assets are enough
  unfoldable pub walk : String → Walked
  unfolding rounds
  walk start = rounds max_lineage_nodes (first_state start) ((start, 0) ∷ [])

-- tuples of texts are ordered by the first place where they differ
abbrev pub le_edge : String × String → String × String → Bool
le_edge e f = if e.0 == f.0 then le_text e.1 f.1 else le_text e.0 f.0

-- the three results of `_walk`
abbrev pub nodes_of : String → WalkState → List String
nodes_of start s = sorted le_text (filter (λ n. not (n == start)) s.visited)

abbrev pub edges_of : WalkState → List (String × String)
edges_of s = sorted le_edge s.edges
