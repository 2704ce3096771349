-- ===== src/DataPlatform/Contracts/Clear.antt =====
-- Parts of a contract report without a finding that blocks.
use kafka_order_event_platfo.Prelude.{
  String, Bool, true, false, ◌||◌, Option, List, [], ◌∷◌, ◌++◌, any, any-append, string_eq, ◌≡◌,
  refl, sym, ◌∙◌, arith, All,
}
use kafka_order_event_platfo.DataPlatform.Results.{Result, ok, ◌>>=◌, first_ok, ok_subst}
use kafka_order_event_platfo.DataPlatform.Contracts.{
  Python, Object, Manifest, ContractFinding, is_blocking,
}
use kafka_order_event_platfo.DataPlatform.Contracts.Impact.{downstream_paths}
use kafka_order_event_platfo.DataPlatform.Contracts.Columns.{report_if, collect, block, finding}

-- A part that is there and that has no finding that blocks.
abbrev pub IsClear : Result (List ContractFinding) → Type 0
IsClear m = (l : List ContractFinding) × (m ≡ ok l) × (any is_blocking l ≡ false)

pub collect-IsClear :
    (ps : List (Result (List ContractFinding))) → IsClear (collect ps) → All IsClear ps
unfolding collect
collect-IsClear [] h = tt
collect-IsClear (p ∷ ps) (l, h, clear) =
    let (xs, first, rest) = first_ok p (λ found. collect ps >>= λ rest. ok (found ++ rest)) h in
    let (ys, others, whole) = first_ok (collect ps) (λ rest. ok (xs ++ rest)) rest in
    let parts : (any is_blocking xs || any is_blocking ys) ≡ false =
      sym (any-append is_blocking xs ys)
      ∙ ok_subst (λ found. any is_blocking found ≡ false) (sym whole) clear in
    ((xs, first, ground (arith, parts)), collect-IsClear ps (ys, others, ground (arith, parts)))

module _ (python : Python) (previous : Manifest) (id : String) where
  block_blocks :
      (node : Object) (column : Option String) (change_type : String) (evidence : List String)
      {x : ContractFinding}
      → block python previous id node column change_type evidence ≡ ok x
      → is_blocking x ≡ true
  unfolding finding
  block_blocks node column change_type evidence h =
      let (paths, _, made) = first_ok (downstream_paths python previous id) _ h in
      ok_subst (λ f. is_blocking f ≡ true) made refl

  -- A part that would report a finding that blocks does not report it.
  pub report_clear :
      (b : Bool) (node : Object) (column : Option String) (change_type : String)
      (evidence : List String)
      → IsClear (report_if b (block python previous id node column change_type evidence))
      → b ≡ false
  unfolding report_if
  report_clear false node column change_type evidence h = refl
  report_clear true node column change_type evidence (l, h, clear) =
      let (x, made, one) =
        first_ok (block python previous id node column change_type evidence) (λ x. ok (x ∷ [])) h in
      let found = ok_subst (λ found. any is_blocking found ≡ false) (sym one) clear in
      absurd (ground (arith, found, block_blocks node column change_type evidence made))
