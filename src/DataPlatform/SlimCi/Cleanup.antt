-- ===== src/DataPlatform/SlimCi/Cleanup.antt =====
-- What the cleanup of slim_ci.py drops.
use kafka_order_event_platfo.Prelude.{
  ℕ, String, Bool, true, not, ◌&&◌, List, [], ◌∷◌, all, filter, elem, elem-filter, ◌==◌, string_eq,
  ◌≡◌, refl, sym, ap, ◌∙◌, subst, arith, All, All-elem, Bool-cases, ◌⊎◌, inl, inr,
}
use kafka_order_event_platfo.DataPlatform.Values.{codes}
use kafka_order_event_platfo.DataPlatform.SlimCi.{
  World, CiOutcome, returned, raised, CiError, Ci, ◌>>=◌, ◌>>◌,
}
use kafka_order_event_platfo.DataPlatform.SlimCi.Schemas.{
  is_like, is_below, is_selected, is_owned, is_safe_prefix, remove, drop_schemas, check_prefixes,
  ask_database, drop_selected, cleanup_ci_schemas,
}

is_like_of_below : (ps cs : List ℕ) → is_below ps cs ≡ true → is_like ps cs ≡ true
unfolding is_below is_like
is_like_of_below [] [] h = h
is_like_of_below [] (c ∷ cs) h = h
is_like_of_below (p ∷ ps) [] h = h
is_like_of_below (p ∷ ps) (c ∷ cs) h = ground (arith, h, is_like_of_below ps cs)

-- What is owned is selected.
is_selected_of_owned :
    (prefixes : List String) (name : String)
    → is_owned prefixes name ≡ true
    → is_selected prefixes name ≡ true
is_selected_of_owned [] name h = h
is_selected_of_owned (p ∷ prefixes) name h =
    ground (arith, h, is_like_of_below (codes p) (codes name), is_selected_of_owned prefixes name)

drop_schemas-elem :
    (prefixes names schemas : List String) (s : String) {left : List String}
    → drop_schemas prefixes names schemas ≡ returned left
    → (elem s left ≡ (elem s schemas && not (elem s names)))
      × All (λ n. is_owned prefixes n ≡ true) names
unfolding drop_schemas
drop_schemas-elem prefixes [] schemas s h = (ground (arith, h), tt)
drop_schemas-elem prefixes (n ∷ names) schemas s {left} h =
    elim (Bool-cases (is_owned prefixes n)) [
      | inl owned ↦
          let rest =
            drop_schemas-elem prefixes names (remove n schemas) s {left = left}
              (ground (arith, h, owned)) in
          let others = elem-filter (λ x. not (x == n)) s schemas in
          (
            ground (arith, rest.0, others, string_eq.beq_iff s n, string_eq.beq_iff n s),
            (owned, rest.1),
          )
      | inr foreign ↦ absurd (ground (arith, h, foreign))
    ]

-- What a cleanup does to the schemas.
pub record IsCleaned (prefixes : List String) (before after : List String) : Type 0 where
  pub safe : All (λ p. is_safe_prefix p ≡ true) prefixes
  pub exact : (s : String) → elem s after ≡ (elem s before && not (is_owned prefixes s))

-- What a cleanup that ends so does to the schemas.
abbrev pub CleanedBy : List String → List String → List String → CiOutcome (Unit {0}) → Type 0
CleanedBy prefixes before after (returned _) = IsCleaned prefixes before after
CleanedBy prefixes before after (raised _) = after ≡ before

CiOutcome-cases :
    {A : Type 0} (o : CiOutcome A) → ((a : A) × (o ≡ returned a)) ⊎ ((e : CiError) × (o ≡ raised e))
CiOutcome-cases (returned a) = inl (a, refl)
CiOutcome-cases (raised e) = inr (e, refl)

exact_of :
    (kept there found selected owned : Bool)
    → kept ≡ (there && not found)
    → found ≡ (there && selected)
    → (found ≡ true → owned ≡ true)
    → (owned ≡ true → selected ≡ true)
    → kept ≡ (there && not owned)
exact_of kept there found selected owned k f o s = ground (arith, k, f, o, s)

drop_selected-exact :
    (prefixes : List String) (w v : World)
    → drop_selected prefixes w ≡ (returned tt, v)
    → (s : String) → elem s v.schemas ≡ (elem s w.schemas && not (is_owned prefixes s))
unfolding drop_selected
drop_selected-exact prefixes w v h s =
    let found = filter (is_selected prefixes) w.schemas in
    elim (CiOutcome-cases (drop_schemas prefixes found w.schemas)) [
      | inr (e, r) ↦ absurd (ground (arith, h, r))
      | inl (left, r) ↦
          let (kept, all) = drop_schemas-elem prefixes found w.schemas s r in
          let owned : elem s found ≡ true → is_owned prefixes s ≡ true =
            All-elem (λ n. is_owned prefixes n ≡ true) found s all in
          let after : v.schemas ≡ left = ground (arith, h, r) in
          ap (elem s) after
          ∙ exact_of (elem s left) (elem s w.schemas) (elem s found) (is_selected prefixes s)
              (is_owned prefixes s) kept (elem-filter (is_selected prefixes) s w.schemas) owned
              (is_selected_of_owned prefixes s)
    ]

-- A raised error leaves the schemas as they were.
drop_selected-raised :
    (prefixes : List String) (w v : World) (e : CiError)
    → drop_selected prefixes w ≡ (raised e, v)
    → v.schemas ≡ w.schemas
unfolding drop_selected
drop_selected-raised prefixes w v e h =
    elim (CiOutcome-cases
      (drop_schemas prefixes (filter (is_selected prefixes) w.schemas) w.schemas)) [
        | inr (f, r) ↦ ground (arith, h, r)
        | inl (left, r) ↦ absurd (ground (arith, h, r))
      ]

check_prefixes-safe :
    (prefixes : List String) (w v : World)
    → check_prefixes prefixes w ≡ (returned tt, v)
    → (v ≡ w) × All (λ p. is_safe_prefix p ≡ true) prefixes
unfolding check_prefixes ◌>>=◌
check_prefixes-safe [] w v h = (ground (arith, h), tt)
check_prefixes-safe (p ∷ prefixes) w v h = elim (Bool-cases (is_safe_prefix p)) [
  | inl safe ↦
      let (same, rest) = check_prefixes-safe prefixes w v (ground (arith, h, safe)) in
      (same, (safe, rest))
  | inr bad ↦ absurd (ground (arith, h, bad))
]

pub check_prefixes-same : (prefixes : List String) (w : World) → (check_prefixes prefixes w).1 ≡ w
unfolding check_prefixes ◌>>=◌
check_prefixes-same [] w = refl
check_prefixes-same (p ∷ prefixes) w = ground (arith, check_prefixes-same prefixes w)

ask_database-schemas : (w : World) → (ask_database w).1.schemas ≡ w.schemas
unfolding ask_database
ask_database-schemas w = ground arith

-- A call and the rest of the program: either the call raises, or the rest runs where it ends.
abbrev pub Steps : {B : Type 0} → CiOutcome (Unit {0}) × World → Ci B → CiOutcome B → World → Type 0
Steps {B = B} first next o v =
    ((e : CiError) × ((o ≡ raised e) × (first ≡ (raised e, v))))
    ⊎ ((u : World) × ((first ≡ (returned tt, u)) × (next u ≡ (o, v))))

pub step_of :
    {B : Type 0} (first : CiOutcome (Unit {0}) × World) (next : Ci B) {o : CiOutcome B} {v : World}
    → (◌>>=◌ (λ _. first) (λ _. next) first.1) ≡ (o, v)
    → Steps first next o v
unfolding ◌>>=◌
step_of (raised e, u) next h = inl (e, (sym (ap (λ x. x.0) h), λ i. (raised e, (h i).1)))
step_of (returned tt, u) next h = inr (u, (refl, h))

-- The outcome of a call that raises.
raised_CleanedBy :
    (prefixes : List String) (before after : List String) {o : CiOutcome (Unit {0})} {e : CiError}
    → o ≡ raised e
    → after ≡ before
    → CleanedBy prefixes before after o
raised_CleanedBy prefixes before after h kept = subst (CleanedBy prefixes before after) (sym h) kept

drop_selected-IsCleaned :
    (prefixes : List String) (w v : World) (o : CiOutcome (Unit {0}))
    → All (λ p. is_safe_prefix p ≡ true) prefixes
    → drop_selected prefixes w ≡ (o, v)
    → CleanedBy prefixes w.schemas v.schemas o
drop_selected-IsCleaned prefixes w v (returned tt) safe h = record {
  safe = safe;
  exact = drop_selected-exact prefixes w v h;
}
drop_selected-IsCleaned prefixes w v (raised e) safe h = drop_selected-raised prefixes w v e h

module _ (prefixes : List String) (w v : World) where
  pub cleanup_ci_schemas-IsCleaned :
      (o : CiOutcome (Unit {0}))
      → cleanup_ci_schemas prefixes w ≡ (o, v)
      → CleanedBy prefixes w.schemas v.schemas o
  unfolding cleanup_ci_schemas ◌>>=◌
  cleanup_ci_schemas-IsCleaned o h =
      elim (step_of (check_prefixes prefixes w) (ask_database >> drop_selected prefixes) h) [
        | inl (e, (bad, stop)) ↦ raised_CleanedBy prefixes w.schemas v.schemas bad (
            ap (λ x. x.1.schemas) (sym stop) ∙ ap (λ x. x.schemas) (check_prefixes-same prefixes w))
        | inr (u, (good, rest)) ↦
            let (same, safe) = check_prefixes-safe prefixes w u good in
            elim (step_of (ask_database u) (drop_selected prefixes) rest) [
              | inl (e, (bad, stop)) ↦ raised_CleanedBy prefixes w.schemas v.schemas bad (
                  ap (λ x. x.1.schemas) (sym stop)
                  ∙ ask_database-schemas u
                  ∙ ap (λ x. x.schemas) same)
              | inr (t, (asked, dropped)) ↦
                  let kept : t.schemas ≡ w.schemas =
                    ap (λ x. x.1.schemas) (sym asked)
                    ∙ ask_database-schemas u
                    ∙ ap (λ x. x.schemas) same in
                  subst (λ before. CleanedBy prefixes before v.schemas o) kept
                    (drop_selected-IsCleaned prefixes t v o safe dropped)
            ]
      ]
