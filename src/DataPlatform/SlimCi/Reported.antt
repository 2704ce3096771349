-- ===== src/DataPlatform/SlimCi/Reported.antt =====
-- The result of run_slim_ci of slim_ci.py.
use kafka_order_event_platfo.Prelude.{
  String, string_eq, true, false, Option, some, List, elem, ◌≡◌, refl, arith, subst, All, inl, inr,
  if_split,
}
use kafka_order_event_platfo.DataPlatform.SlimCi.{
  World, Ci, CiOutcome, returned, raised, CiError, ◌>>=◌, ◌>>◌, fail_if, CiStatus, passed, failed,
  SlimCiResult,
}
use kafka_order_event_platfo.DataPlatform.SlimCi.Schemas.{is_owned, cleanup_ci_schemas}
use kafka_order_event_platfo.DataPlatform.SlimCi.Cleanup.{cleanup_ci_schemas-IsCleaned, step_of}
use kafka_order_event_platfo.DataPlatform.SlimCi.Commands.{LineReader, git_value}
use kafka_order_event_platfo.DataPlatform.SlimCi.Runs.{Anything, Good, Ended, Runs, Runs_bind}
use kafka_order_event_platfo.DataPlatform.SlimCi.Green.{Gates, Runs_cleanup, Runs_build_all}
use kafka_order_event_platfo.DataPlatform.SlimCi.Job.{Job, Outside}
use kafka_order_event_platfo.DataPlatform.SlimCi.Orchestration.{
  build_all, prefixes, write_summary, settle_cleanup, settle_run, try_run, begin_run, run_slim_ci,
  is_caught, is_caught_in_cleanup,
}

post_after :
    {A B : Type 0} (next : A → Ci B) (P : CiOutcome B × World → Type 0)
    (first : CiOutcome A × World)
    → ((e : CiError) (v : World) → P (raised e, v))
    → ((a : A) (v : World) → P (next a v))
    → P (◌>>=◌ (λ _. first) next first.1)
unfolding ◌>>=◌
post_after next P (returned a, v) stop go = go a v
post_after next P (raised e, v) stop go = stop e v

post_bind :
    {A B : Type 0} (m : Ci A) (next : A → Ci B) (P : CiOutcome B × World → Type 0) (w : World)
    → ((e : CiError) (v : World) → P (raised e, v))
    → ((a : A) (v : World) → P (next a v))
    → P ((m >>= next) w)
unfolding ◌>>=◌
post_bind m next P w stop go = post_after next P (m w) stop go

module _ (job : Job) (outside : Outside) (reader : LineReader) where
  -- No schema of the run is left.
  abbrev pub IsSwept : List String → Type 0
  IsSwept schemas =
      (s : String) → is_owned (prefixes job outside reader) s ≡ true → elem s schemas ≡ false

  -- What the status of a result says.
  abbrev pub Verdict : CiStatus → SlimCiResult → List String → Type 0
  Verdict passed result schemas =
      All (λ c. c.exit_code ≡ 0) result.commands × (Gates outside result.mode × IsSwept schemas)
  Verdict failed result schemas = (message : String) × (result.error ≡ some message)

  pub record IsReported (result : SlimCiResult) (v : World) : Type 0 where
    pub summary : v.summary ≡ some result
    pub commands : result.commands ≡ v.evidence
    pub verdict : Verdict result.status result v.schemas

  abbrev Reported : CiOutcome SlimCiResult × World → Type 0
  Reported (returned result, v) = IsReported result v
  Reported (raised e, v) = Unit

  written_Reported :
      (o : CiOutcome (Unit {0})) (result : SlimCiResult) (v : World)
      → result.commands ≡ v.evidence
      → Verdict result.status result v.schemas
      → Reported (elim o [
        | returned _ ↦ (returned result, record v { summary = some result })
        | raised e ↦ (raised e, v)
      ])
  written_Reported (returned _) result v commands verdict = record {
    summary = refl;
    commands = commands;
    verdict = verdict;
  }
  written_Reported (raised e) result v commands verdict = tt {0}

  write_summary-Reported :
      (result : SlimCiResult) (v : World)
      → result.commands ≡ v.evidence
      → Verdict result.status result v.schemas
      → Reported (write_summary job outside reader result v)
  unfolding write_summary
  write_summary-Reported result v commands verdict =
      written_Reported outside.written result v commands verdict

  settle_cleanup-Reported :
      (sha : Option String) (error : CiError) (cleaned : CiOutcome (Unit {0})) (v : World)
      → Reported (settle_cleanup job outside reader sha error cleaned v)
  unfolding settle_cleanup
  settle_cleanup-Reported sha error (returned _) v = write_summary-Reported _ v refl (_, refl)
  settle_cleanup-Reported sha error (raised e) v =
      if_split Reported (is_caught_in_cleanup job outside reader e)
        (λ _. write_summary-Reported _ v refl (_, refl)) (λ _. tt {0})

  settle_run-Reported :
      (sha : Option String) (o : CiOutcome (Unit {0})) (v : World)
      → Ended (Gates outside) (o, v)
      → (o ≡ returned tt → IsSwept v.schemas)
      → Reported (settle_run job outside reader sha o v)
  unfolding settle_run
  settle_run-Reported sha (returned tt) v good swept =
      write_summary-Reported _ v refl (good.0, (good.1, swept refl))
  settle_run-Reported sha (raised error) v good swept =
      let (cleaned, u) = cleanup_ci_schemas (prefixes job outside reader) v in
      if_split Reported (is_caught job outside reader error)
        (λ _. settle_cleanup-Reported sha error cleaned u) (λ _. tt {0})

  build_all-IsSwept :
      (w v : World)
      → (build_all job outside reader >> cleanup_ci_schemas (prefixes job outside reader)) w
        ≡ (returned tt, v)
      → IsSwept v.schemas
  unfolding ◌>>=◌
  build_all-IsSwept w v h s owned =
      let all = prefixes job outside reader in
      elim (step_of (build_all job outside reader w) (cleanup_ci_schemas all) h) [
        | inl (e, (never, _)) ↦ absurd (ground (arith, never))
        | inr (u, (_, cleaned)) ↦
            let kept = (cleanup_ci_schemas-IsCleaned all u v (returned tt) cleaned).exact s in
            ground (arith, kept, owned)
      ]

  try_run-Reported :
      (sha : Option String) (w : World)
      → Good Anything w
      → Reported (try_run job outside reader sha w)
  unfolding try_run
  try_run-Reported sha w good =
      let G = Gates outside in
      let all = prefixes job outside reader in
      let whole : Ci (Unit {0}) = build_all job outside reader >> cleanup_ci_schemas all in
      let runs : Runs Anything G whole =
        Runs_bind Anything G G _ _ (Runs_build_all job outside reader)
          (λ _. Runs_cleanup job outside reader G all) in
      settle_run-Reported sha (whole w).0 (whole w).1 (runs.ended w good)
        (λ r. build_all-IsSwept w (whole w).1 (λ i. (r i, (whole w).1)))

  run_slim_ci-Reported : (w : World) → Reported (run_slim_ci job outside reader w)
  unfolding run_slim_ci ◌>>=◌
  run_slim_ci-Reported w =
      post_bind (fail_if _ _) _ Reported w (λ _ _. tt {0})
        (λ _ v.
          post_bind git_value _ Reported v (λ _ _. tt {0})
            (λ sha u. try_run-Reported sha (begin_run job outside reader u).1 (tt {0}, tt {0})))

  module _ (w v : World) (result : SlimCiResult) where
    -- A run of the slim CI that returns a result has written that result as its summary, with the
    -- evidence of its commands. If the result passed, then every command has ended with code 0,
    -- the conventions and the contracts, compared in the mode of the result, have no finding that
    -- blocks, and no schema of the run is left in the database. If it failed, it has an error.
    pub run_slim_ci-IsReported :
        run_slim_ci job outside reader w ≡ (returned result, v) → IsReported result v
    run_slim_ci-IsReported h = subst Reported h (run_slim_ci-Reported w)
