-- ===== src/DataPlatform/Contracts/Kept.antt =====
-- Columns in a contract report without a finding that blocks.
use kafka_order_event_platfo.Prelude.{
  String, true, not, ◌&&◌, Option, none, some, [], ◌∷◌, map, filter, elem, elem-filter, ◌==◌,
  string_eq, ◌≡◌, refl, ap, ◌∙◌, subst, arith, All_parts, All_images, All-elem, Bool-cases, inl,
  inr,
}
use kafka_order_event_platfo.Dict.{keys}
use kafka_order_event_platfo.Sorting.{elem-sorted}
use kafka_order_event_platfo.Text.{le_text}
use kafka_order_event_platfo.DataPlatform.Values.{get_object}
use kafka_order_event_platfo.DataPlatform.Results.{first_ok}
use kafka_order_event_platfo.DataPlatform.Contracts.{Python, Object, Manifest, type_of, required}
use kafka_order_event_platfo.DataPlatform.Contracts.Columns.{
  object_at, missing_from, report_removed, report_rename, report_added, report_columns,
  compare_column, compare_common, compare_objects, common, compare_columns,
}
use kafka_order_event_platfo.DataPlatform.Contracts.Clear.{IsClear, collect-IsClear, report_clear}

module _ (python : Python) (previous : Manifest) (id : String) where
  module _ (old_node new_node : Object) where
    abbrev old_columns : Object
    old_columns = get_object "columns" old_node

    abbrev new_columns : Object
    new_columns = get_object "columns" new_node

    -- What a report without a finding that blocks says of the columns.
    pub record ColumnsKept : Type 0 where
      pub there : (c : String) → elem c (keys old_columns) ≡ true → elem c (keys new_columns) ≡ true
      pub types :
          (c : String) {old new : Object}
          → object_at c old_columns ≡ some old
          → object_at c new_columns ≡ some new
          → type_of python old ≡ type_of python new
      pub nullable :
          (c : String) {old new : Object}
          → object_at c old_columns ≡ some old
          → object_at c new_columns ≡ some new
          → required new ≡ true
          → required old ≡ true

    elem-missing_from :
        (c : String) (d columns : Object)
        → elem c (missing_from d columns) ≡ (elem c (keys columns) && not (elem c (keys d)))
    elem-missing_from c d columns =
        elem-sorted le_text c (filter (λ k. not (elem k (keys d))) (keys columns))
        ∙ elem-filter (λ k. not (elem k (keys d))) c (keys columns)

    elem-common :
        (c : String)
        → elem c (common python previous id old_node new_node old_columns new_columns)
          ≡ (elem c (keys old_columns) && elem c (keys new_columns))
    elem-common c =
        elem-sorted le_text c (filter (λ k. elem k (keys new_columns)) (keys old_columns))
        ∙ elem-filter (λ k. elem k (keys new_columns)) c (keys old_columns)

    object_at-elem : (c : String) (d v : Object) → object_at c d ≡ some v → elem c (keys d) ≡ true
    object_at-elem c [] v h = absurd (ground (arith, h))
    object_at-elem c ((k, w) ∷ d) v h = elim (Bool-cases (k == c)) [
      | inl same ↦ ground (arith, same)
      | inr other ↦
          let rest = object_at-elem c d v (ground (arith, h, other)) in ground (arith, rest)
    ]

    -- The part of a report that is about a column of both.
    common-IsClear :
        (c : String) (old new : Object)
        → IsClear (compare_common python previous id old_node new_node old_columns new_columns c)
        → object_at c old_columns ≡ some old
        → object_at c new_columns ≡ some new
        → IsClear
            (compare_column python previous id old_node new_node old_columns new_columns c old new)
    common-IsClear c old new h o n =
        let compare =
          compare_objects python previous id old_node new_node old_columns new_columns c in
        subst IsClear (ap (λ a. compare a (object_at c new_columns)) o ∙ ap (compare (some old)) n)
          h

    column_kept :
        (c : String) (old new : Object)
        → IsClear
            (compare_column python previous id old_node new_node old_columns new_columns c old new)
        → (type_of python old ≡ type_of python new) × (required new ≡ true → required old ≡ true)
    unfolding compare_column
    column_kept c old new h =
        let parts = collect-IsClear _ h in
        let same =
          report_clear python previous id (not (type_of python old == type_of python new)) old_node
            (some c) _ _ parts.0 in
        let kept =
          report_clear python previous id (not (required old) && required new) old_node (some c) _ _
            parts.1.0 in
        (
          ground (arith, same, string_eq.beq_iff (type_of python old) (type_of python new)),
          λ r. ground (arith, kept, r),
        )

    -- Without a finding that blocks there is no rename.
    rename-none :
        (pair : Option (String × String))
        → IsClear (report_rename python previous id old_node new_node old_columns new_columns pair)
        → pair ≡ none
    unfolding report_rename
    rename-none none h = refl
    rename-none (some (r, a)) h =
        absurd (ground (arith, report_clear python previous id true old_node _ _ _ h))

    rename_absent :
        (pair : Option (String × String))
        → IsClear (report_columns python previous id old_node new_node old_columns new_columns pair)
        → pair ≡ none
    unfolding report_columns
    rename_absent pair h = rename-none pair (collect-IsClear _ h).0

    columns_parts :
        IsClear (report_columns python previous id old_node new_node old_columns new_columns none)
        → ColumnsKept
    unfolding report_columns report_removed
    columns_parts h =
        let removed =
          report_removed python previous id old_node new_node old_columns new_columns none in
        let added =
          report_added python previous id old_node new_node old_columns new_columns none in
        let compare = compare_common python previous id old_node new_node old_columns new_columns in
        let all = collect-IsClear _ h in
        let (left, others) =
          All_parts IsClear (map removed (missing_from new_columns old_columns)) _ all.1 in
        let (_, both) =
          All_parts IsClear (map added (missing_from old_columns new_columns)) _ others in
        let gone = All_images IsClear removed (missing_from new_columns old_columns) left in
        let kept =
          All_images IsClear compare
            (common python previous id old_node new_node old_columns new_columns) both in
        let column : (c : String) (old new : Object)
            → object_at c old_columns ≡ some old
            → object_at c new_columns ≡ some new
            → (type_of python old ≡ type_of python new)
              × (required new ≡ true → required old ≡ true) =
          λ c old new o n. column_kept c old new (
            common-IsClear c old new
              (All-elem (λ c. IsClear (compare c)) _ c kept
                (ground (
                  arith,
                  elem-common c,
                  object_at-elem c old_columns old o,
                  object_at-elem c new_columns new n,
                )))
              o n) in
        record {
          there = λ c h. elim (Bool-cases (elem c (keys new_columns))) [
            | inl here ↦ here
            | inr gone_now ↦ absurd (
                ground (
                  arith,
                  report_clear python previous id true old_node (some c) _ _ (
                      All-elem (λ c. IsClear (removed c)) _ c gone
                        (ground (arith, elem-missing_from c new_columns old_columns, h, gone_now))),
                ))
          ];
          types = λ c o n. (column c _ _ o n).0;
          nullable = λ c o n. (column c _ _ o n).1;
        }

    pub compare_columns-ColumnsKept :
        IsClear (compare_columns python previous id old_node new_node) → ColumnsKept
    unfolding compare_columns
    compare_columns-ColumnsKept (l, h, clear) =
        let (pair, _, reported) =
          first_ok _ (report_columns python previous id old_node new_node old_columns new_columns)
            h in
        let report = report_columns python previous id old_node new_node old_columns new_columns in
        columns_parts (
          subst (λ p. IsClear (report p)) (rename_absent pair (l, reported, clear))
            (l, reported, clear))
