-- ===== src/DataPlatform/Contracts/Impact/Ends.antt =====
-- The search of _downstream_paths of contracts.py ends.
use kafka_order_event_platfo.Prelude.{
  ℕ, zero, suc, ◌+◌, ◌≤◌, String, true, false, not, Option, none, some, List, [], ◌∷◌, ◌++◌, length,
  length-append, filter, elem, ltb, ◌==◌, nat_eq, string_eq, ◌≡◌, refl, sym, ap, subst, arith,
  Bool-cases, ◌⊎◌, inl, inr, if_split,
}
use kafka_order_event_platfo.Dict.{lookup, keys}
use kafka_order_event_platfo.DataPlatform.Values.{
  Value, null, bool, int, float, text, array, object,
}
use kafka_order_event_platfo.DataPlatform.Results.{Result, ok, err, type_error, ◌>>=◌}
use kafka_order_event_platfo.DataPlatform.Contracts.{Python, Object, Manifest, get_text}
use kafka_order_event_platfo.DataPlatform.Contracts.Impact.{
  Search, model_of, add_child, visit_key, visit_children, children_of, expand, search_from,
  first_search, paths_of, downstream_paths,
}

-- the names that were not visited
unvisited : List String → List String → ℕ
unvisited visited names = length (filter (λ k. not (elem k visited)) names)

unvisited_mono :
    (k : String) (visited names : List String)
    → unvisited (k ∷ visited) names ≤ unvisited visited names
unfolding unvisited
unvisited_mono k visited [] = ground arith
unvisited_mono k visited (n ∷ names) = ground (arith, unvisited_mono k visited names)

unvisited_less :
    (k : String) (visited names : List String)
    → elem k names ≡ true
    → elem k visited ≡ false
    → suc (unvisited (k ∷ visited) names) ≤ unvisited visited names
unfolding unvisited
unvisited_less k visited [] h new = absurd (ground (arith, h))
unvisited_less k visited (n ∷ names) h new = elim (Bool-cases (n == k)) [
  | inl same ↦
      let equal = (string_eq.beq_iff n k).0 same in
      let unseen = subst (λ s. elem s visited ≡ false) (sym equal) new in
      let found = (string_eq.beq_iff k n).1 (sym equal) in
      ground (arith, unseen, found, unvisited_mono k visited names)
  | inr other ↦
      let rest = unvisited_less k visited names (ground (arith, h, other)) new in
      ground (arith, rest)
]

elem-keys-lookup :
    (k : String) (d : Object) (v : Value) → lookup k d ≡ some v → elem k (keys d) ≡ true
elem-keys-lookup k [] v h = absurd (ground (arith, h))
elem-keys-lookup k ((j, w) ∷ d) v h = elim (Bool-cases (j == k)) [
  | inl same ↦ ground (arith, same)
  | inr other ↦ let rest = elem-keys-lookup k d v (ground (arith, h, other)) in ground (arith, rest)
]

Option-cases : {A : Type 0} (o : Option A) → (o ≡ none) ⊎ ((a : A) × (o ≡ some a))
Option-cases none = inl refl
Option-cases (some a) = inr (a, refl)

module _ (python : Python) (manifest : Manifest) where
  names : List String
  names = keys manifest.nodes

  -- the rounds that a search may still need
  measure : Search → ℕ
  measure s = length s.queue + unvisited s.visited names

  model_of-elem :
      (id : String) (node : Object) → model_of python manifest id ≡ some node → elem id names ≡ true
  unfolding names
  model_of-elem id node h = elim (Option-cases (lookup id manifest.nodes)) [
    | inl missing ↦ absurd (ground (arith, h, missing))
    | inr (v, found) ↦ elem-keys-lookup id manifest.nodes v found
  ]

  add_child-measure :
      (id : String) (path : List String) (node : Object) (s : Search)
      → elem id names ≡ true
      → measure (add_child python manifest id path node s) ≤ measure s
  unfolding add_child measure
  add_child-measure id path node s known = elim (Bool-cases (elem id s.visited)) [
    | inl seen ↦ ground (arith, seen)
    | inr new ↦ ground (
      arith,
      new,
      unvisited_less id s.visited names known new,
      length-append s.queue ((id, path ++ (get_text python "name" id node ∷ [])) ∷ []),
    )
  ]

  visit_key-measure :
      (path : List String) (key : Option String) (s : Search)
      → measure (visit_key python manifest path key s) ≤ measure s
  visit_key-measure path none s = ground arith
  visit_key-measure path (some id) s = elim (Option-cases (model_of python manifest id)) [
    | inl none_there ↦ ground (arith, none_there)
    | inr (node, found) ↦
        ground (arith, found, add_child-measure id path node s (model_of-elem id node found))
  ]

  -- A step of the search that ends as it should, with the rounds left.
  abbrev IsBounded : ℕ → Result Search → Type 0
  IsBounded n (ok t) = measure t ≤ n
  IsBounded n (err e) = e ≡ type_error

  abbrev HasEnded : Result (Option Search) → Type 0
  HasEnded (ok none) = ⊥
  HasEnded (ok (some s)) = Unit
  HasEnded (err e) = e ≡ type_error

  visit_children-IsBounded :
      (n : ℕ) (path : List String) (vs : List Value) (s : Search)
      → measure s ≤ n
      → IsBounded n (visit_children python manifest path vs s)
  unfolding visit_children
  visit_children-IsBounded n path [] s h = h
  visit_children-IsBounded n path (text id ∷ vs) s h =
      visit_children-IsBounded n path vs _ (ground (arith, h, visit_key-measure path (some id) s))
  visit_children-IsBounded n path (null ∷ vs) s h = visit_children-IsBounded n path vs s h
  visit_children-IsBounded n path (bool _ ∷ vs) s h = visit_children-IsBounded n path vs s h
  visit_children-IsBounded n path (int _ ∷ vs) s h = visit_children-IsBounded n path vs s h
  visit_children-IsBounded n path (float _ _ ∷ vs) s h = visit_children-IsBounded n path vs s h
  visit_children-IsBounded n path (array _ ∷ vs) s h = refl
  visit_children-IsBounded n path (object _ ∷ vs) s h = refl

  expand-IsBounded :
      (n max_depth : ℕ) (id : String) (path : List String) (s : Search)
      → measure s ≤ n
      → IsBounded n (expand python manifest max_depth id path s)
  unfolding expand
  expand-IsBounded n max_depth id path s h =
      if_split (IsBounded n) (ltb max_depth (length path)) (λ _. h)
        (λ _. visit_children-IsBounded n path (children_of python manifest id) s h)

  HasEnded-after :
      (n : ℕ) (m : Result Search) (next : Search → Result (Option Search))
      → IsBounded n m
      → ((t : Search) → measure t ≤ n → HasEnded (next t))
      → HasEnded (m >>= next)
  HasEnded-after n (ok t) next h step = step t h
  HasEnded-after n (err e) next h step = h

  search_from-HasEnded :
      (max_depth fuel : ℕ) (s : Search) (queue : List (String × List String))
      → length queue + unvisited s.visited names ≤ fuel
      → HasEnded (search_from python manifest max_depth fuel s queue)
  unfolding search_from measure
  search_from-HasEnded max_depth fuel s [] h = tt {0}
  search_from-HasEnded max_depth zero s (_ ∷ _) h = absurd (ground (arith, h))
  search_from-HasEnded max_depth (suc fuel) s ((id, path) ∷ rest) h =
      HasEnded-after fuel (expand python manifest max_depth id path (record s { queue = rest }))
        (λ t. search_from python manifest max_depth fuel t t.queue)
        (expand-IsBounded fuel max_depth id path (record s { queue = rest }) (ground (arith, h)))
        (λ t bound. search_from-HasEnded max_depth fuel t t.queue bound)

  unvisited_all : (visited : List String) (d : Object) → unvisited visited (keys d) ≤ length d
  unfolding unvisited
  unvisited_all visited [] = ground arith
  unvisited_all visited ((k, v) ∷ d) = ground (arith, unvisited_all visited d)

  -- What the search gives.
  abbrev pub IsSearched : Result (List (List String)) → Type 0
  IsSearched m = ((paths : List (List String)) × (m ≡ ok paths)) ⊎ (m ≡ err type_error)

  paths-IsSearched :
      (m : Result (Option Search)) → HasEnded m → IsSearched (m >>= paths_of python manifest)
  paths-IsSearched (ok (some s)) h = inl (_, refl)
  paths-IsSearched (ok none) h = absurd h
  paths-IsSearched (err e) h = inr (ap err h)

  module _ (id : String) where
    -- The search for the models below a model always ends: it gives paths, or it raises a TypeError
    -- for a child that no dict can have as a key. A round for the model and one for each node of
    -- the manifest are enough, also where the children form a cycle.
    pub downstream_paths-IsSearched : IsSearched (downstream_paths python manifest id)
    unfolding downstream_paths names
    downstream_paths-IsSearched =
        let first = first_search python manifest id in
        paths-IsSearched _ (
          search_from-HasEnded 10 (suc (length manifest.nodes)) first first.queue
            (ground (arith, unvisited_all (id ∷ []) manifest.nodes)))
