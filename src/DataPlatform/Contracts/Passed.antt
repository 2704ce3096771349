-- ===== src/DataPlatform/Contracts/Passed.antt =====
-- What a contract report that has passed says of the two manifests.
use kafka_order_event_platfo.Prelude.{
  String, Bool, true, false, not, ◌&&◌, Option, none, some, List, [], ◌∷◌, map, filter, any, elem,
  elem-filter, ◌==◌, string_eq, ◌≡◌, refl, sym, ◌∙◌, subst, arith, All_images, Bool-cases, inl, inr,
  if◌then◌else◌,
}
use kafka_order_event_platfo.Dict.{lookup, All-lookup}
use kafka_order_event_platfo.Sorting.{sorted, elem-sorted, any-sorted}
use kafka_order_event_platfo.Text.{le_text}
use kafka_order_event_platfo.DataPlatform.Values.{Value}
use kafka_order_event_platfo.DataPlatform.Results.{ok, first_ok, ok_subst}
use kafka_order_event_platfo.DataPlatform.Contracts.{
  Python, Object, Manifest, ContractFinding, ContractReport, passed, blocked, is_blocking,
  published_models, grain, is_enforced,
}
use kafka_order_event_platfo.DataPlatform.Contracts.Keys.{tests_for_model, business_keys}
use kafka_order_event_platfo.DataPlatform.Contracts.Columns.{collect}
use kafka_order_event_platfo.DataPlatform.Contracts.Clear.{IsClear, collect-IsClear, report_clear}
use kafka_order_event_platfo.DataPlatform.Contracts.Kept.{ColumnsKept, compare_columns-ColumnsKept}
use kafka_order_event_platfo.DataPlatform.Contracts.Comparison.{
  load_manifest, is_subset, is_nonempty, removed_from, report_keys, report_tests, compare_nodes,
  compare_found, compare_model, le_finding, report_of, compare_manifests, compare_contracts,
}

elem_of_subset :
    (t : String) (xs ys : List String)
    → is_subset xs ys ≡ true
    → elem t xs ≡ true
    → elem t ys ≡ true
elem_of_subset t [] ys h m = absurd (ground (arith, m))
elem_of_subset t (x ∷ xs) ys h m = elim (Bool-cases (x == t)) [
  | inl same ↦ subst (λ s. elem s ys ≡ true) ((string_eq.beq_iff x t).0 same) (ground (arith, h))
  | inr other ↦ elem_of_subset t xs ys (ground (arith, h)) (ground (arith, m, other))
]

same_elements :
    (t : String) (xs ys : List String)
    → (is_subset xs ys && is_subset ys xs) ≡ true
    → elem t xs ≡ elem t ys
same_elements t xs ys h =
    let there = elem_of_subset t xs ys in
    let back = elem_of_subset t ys xs in
    let left : is_subset xs ys ≡ true = ground (arith, h) in
    let right : is_subset ys xs ≡ true = ground (arith, h) in
    elim (Bool-cases (elem t xs)) [
      | inl yes_xs ↦ yes_xs ∙ sym (there left yes_xs)
      | inr no_xs ↦ elim (Bool-cases (elem t ys)) [
        | inl yes_ys ↦ back right yes_ys ∙ sym yes_ys
        | inr no_ys ↦ no_xs ∙ sym no_ys
      ]
    ]

elem_of_empty : (t : String) (xs : List String) → is_nonempty xs ≡ false → elem t xs ≡ false
elem_of_empty t [] h = refl
elem_of_empty t (x ∷ xs) h = absurd (ground (arith, h))

module _ (python : Python) (previous current : Manifest) where
  -- What is kept of a model that was published.
  pub record IsKept (id : String) (old_node new_node : Object) : Type 0 where
    pub columns : ColumnsKept python previous id old_node new_node
    pub enforced : is_enforced old_node ≡ true → is_enforced new_node ≡ true
    pub same_grain : grain python old_node ≡ grain python new_node
    pub same_keys :
        {old_keys new_keys : List String}
        → business_keys python previous id ≡ ok old_keys
        → business_keys python current id ≡ ok new_keys
        → (t : String) → elem t old_keys ≡ elem t new_keys
    pub tests :
        {old_tests new_tests : List String}
        → tests_for_model python previous id ≡ ok old_tests
        → tests_for_model python current id ≡ ok new_tests
        → (t : String) → elem t old_tests ≡ true
        → elem t new_tests ≡ true

  module _ (id : String) (old_node : Object) where
    keys_kept :
        IsClear (report_keys python previous current id old_node)
        → {old_keys new_keys : List String} → business_keys python previous id ≡ ok old_keys
        → business_keys python current id ≡ ok new_keys
        → (t : String) → elem t old_keys ≡ elem t new_keys
    unfolding report_keys
    keys_kept (l, h, clear) {old_keys} {new_keys} o n t =
        let (olds, found_old, rest) = first_ok (business_keys python previous id) _ h in
        let (news, found_new, reported) = first_ok (business_keys python current id) _ rest in
        let same =
          report_clear python previous id (not (is_subset olds news && is_subset news olds))
            old_node none _ _ (l, reported, clear) in
        ok_subst (λ xs. elem t xs ≡ elem t new_keys) (sym found_old ∙ o)
          (ok_subst (λ ys. elem t olds ≡ elem t ys) (sym found_new ∙ n)
            (same_elements t olds news (ground (arith, same))))

    tests_kept :
        IsClear (report_tests python previous current id old_node)
        → {old_tests new_tests : List String} → tests_for_model python previous id ≡ ok old_tests
        → tests_for_model python current id ≡ ok new_tests
        → (t : String) → elem t old_tests ≡ true
        → elem t new_tests ≡ true
    unfolding report_tests
    tests_kept (l, h, clear) {old_tests} {new_tests} o n t =
        let (olds, found_old, rest) = first_ok (tests_for_model python previous id) _ h in
        let (news, found_new, reported) = first_ok (tests_for_model python current id) _ rest in
        let removed = removed_from python previous current news olds in
        let empty =
          report_clear python previous id (is_nonempty removed) old_node none _ _
            (l, reported, clear) in
        let gone = elem_of_empty t removed empty in
        let known =
          elem-sorted le_text t (filter (λ s. not (elem s news)) olds)
          ∙ elem-filter (λ s. not (elem s news)) t olds in
        ok_subst (λ xs. elem t xs ≡ true → elem t new_tests ≡ true) (sym found_old ∙ o)
          (ok_subst (λ ys. elem t olds ≡ true → elem t ys ≡ true) (sym found_new ∙ n)
            (λ m. ground (arith, gone, known, m)))

    compare_nodes-IsKept :
        (new_node : Object)
        → IsClear (compare_nodes python previous current id old_node new_node)
        → IsKept id old_node new_node
    unfolding compare_nodes
    compare_nodes-IsKept new_node h =
        let (columns, (contract, (same, (keys, (tests, _))))) = collect-IsClear _ h in
        let contract_off =
          report_clear python previous id (is_enforced old_node && not (is_enforced new_node))
            old_node none _ _ contract in
        let grain_off =
          report_clear python previous id (not (grain python old_node == grain python new_node))
            old_node none _ _ same in
        record {
          columns = compare_columns-ColumnsKept python previous id old_node new_node columns;
          enforced = λ e. ground (arith, contract_off, e);
          same_grain =
              ground (
                arith,
                grain_off,
                string_eq.beq_iff (grain python old_node) (grain python new_node),
              );
          same_keys = keys_kept keys;
          tests = tests_kept tests;
        }

    -- A model that is published again, and is kept.
    abbrev pub IsFound : Option Object → Type 0
    IsFound found = (new_node : Object) × (found ≡ some new_node) × IsKept id old_node new_node

    compare_found-IsFound :
        (found : Option Object)
        → IsClear (compare_found python previous current id old_node found)
        → IsFound found
    compare_found-IsFound none h =
        absurd (ground (arith, report_clear python previous id true old_node none _ _ h))
    compare_found-IsFound (some new_node) h = (new_node, refl, compare_nodes-IsKept new_node h)

  passed_clear :
      (findings : List ContractFinding)
      → (report_of python previous current findings).status ≡ passed
      → any is_blocking findings ≡ false
  passed_clear findings h =
      let ordered = sorted (le_finding python previous current) findings in
      sym (any-sorted (le_finding python previous current) is_blocking findings)
      ∙ status_clear (any is_blocking ordered) h
    where
      status_clear : (b : Bool) → (if b then blocked else passed) ≡ passed → b ≡ false
      status_clear false h = refl
      status_clear true h = absurd (ground (arith, h))

  manifests_kept :
      {report : ContractReport}
      → compare_manifests python previous current ≡ ok report
      → report.status ≡ passed
      → (id : String) (old_node : Object)
      → lookup id (published_models python previous.nodes) ≡ some old_node
      → IsFound id old_node (lookup id (published_models python current.nodes))
  unfolding compare_manifests compare_model
  manifests_kept h status id old_node there =
      let compare = compare_model python previous current in
      let (findings, found, made) =
        first_ok (collect (map compare (published_models python previous.nodes))) _ h in
      let clear = passed_clear findings (ok_subst (λ r. r.status ≡ passed) (sym made) status) in
      let parts = collect-IsClear _ (findings, found, clear) in
      let each = All_images IsClear compare (published_models python previous.nodes) parts in
      compare_found-IsFound id old_node _ (
        All-lookup (λ p. IsClear (compare p)) id old_node (published_models python previous.nodes)
          each there)

module _ (python : Python) (previous_document document : Option Value)
    {previous current : Manifest} where
  -- Compare two manifests that can be loaded. If the report has passed, then every published model
  -- of the previous manifest is published by the current one, with every column, where both say
  -- what it is with the same type, and required only if it was before; its contract is enforced if
  -- it was; it has the same grain and the same business keys, and every test that it had.
  pub compare_contracts-IsFound :
      {report : ContractReport}
      → load_manifest previous_document ≡ ok previous
      → load_manifest document ≡ ok current
      → compare_contracts python (some previous_document) document ≡ ok report
      → report.status ≡ passed
      → (id : String) (old_node : Object)
      → lookup id (published_models python previous.nodes) ≡ some old_node
      → IsFound python previous current id old_node
          (lookup id (published_models python current.nodes))
  unfolding compare_contracts
  compare_contracts-IsFound {report} p c h status =
      let (now, loaded, rest) = first_ok (load_manifest document) _ h in
      let (before, loaded_before, compared) = first_ok (load_manifest previous_document) _ rest in
      manifests_kept python previous current
        (ok_subst (λ m. compare_manifests python previous m ≡ ok report) (sym loaded ∙ c)
          (ok_subst (λ m. compare_manifests python m now ≡ ok report) (sym loaded_before ∙ p)
            compared))
        status
