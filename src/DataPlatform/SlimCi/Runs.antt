-- ===== src/DataPlatform/SlimCi/Runs.antt =====
-- Rules for the programs of slim_ci.py: the commands of what has run have all ended with 0.
use kafka_order_event_platfo.Prelude.{
  ℕ, String, Bool, true, false, not, List, [], ◌∷◌, ◌++◌, ◌==◌, nat_eq, string_eq, ◌≡◌, refl, sym,
  ap, subst, arith, All, Bool-cases, inl, inr, if◌then◌else◌,
}
use kafka_order_event_platfo.DataPlatform.SlimCi.{
  World, Ci, CiOutcome, returned, raised, CiError, CommandEnd, exited, not_started, ◌>>=◌, give,
  fail_if, lift, run_command, Mode,
}
use kafka_order_event_platfo.DataPlatform.SlimCi.Commands.{run_git, git_value}

abbrev pub Anything : Mode → Type 0
Anything mode = Unit

-- Every command so far has ended with 0, and something holds of the mode.
abbrev pub Good : (Mode → Type 0) → World → Type 0
Good G w = All (λ c. c.exit_code ≡ 0) w.evidence × G w.mode

abbrev pub Ended : {A : Type 0} → (Mode → Type 0) → CiOutcome A × World → Type 0
Ended G (returned a, w) = Good G w
Ended G (raised e, w) = Unit

-- Where the first holds, the program ends with the second, unless it raises.
pub record Runs {A : Type 0} (G H : Mode → Type 0) (m : Ci A) : Type 0 where
  pub ended : (w : World) → Good G w → Ended H (m w)

All-append :
    {A : Type 0} (P : A → Type 0) (xs : List A) (y : A) → All P xs → P y → All P (xs ++ (y ∷ []))
All-append P [] y h p = (p, tt)
All-append P (x ∷ xs) y h p = (h.0, All-append P xs y h.1 p)

Runs_from :
    {A B : Type 0} (H K : Mode → Type 0) (first : CiOutcome A × World) (next : A → Ci B)
    → Ended H first
    → ((a : A) → Runs H K (next a))
    → Ended K (◌>>=◌ (λ _. first) next first.1)
unfolding ◌>>=◌
Runs_from H K (returned a, v) next h step = (step a).ended v h
Runs_from H K (raised e, v) next h step = tt {0}

pub Runs_bind :
    {A B : Type 0} (G H K : Mode → Type 0) (m : Ci A) (next : A → Ci B)
    → Runs G H m
    → ((a : A) → Runs H K (next a))
    → Runs G K (m >>= next)
unfolding ◌>>=◌
Runs_bind G H K m next h step = record {
  ended = λ w good. Runs_from H K (m w) next (h.ended w good) step;
}

module _ (G : Mode → Type 0) where
  pub Keeps_bind :
      {A B : Type 0} (m : Ci A) (next : A → Ci B)
      → Runs G G m
      → ((a : A) → Runs G G (next a))
      → Runs G G (m >>= next)
  Keeps_bind m next h step = Runs_bind G G G m next h step

  pub Runs_simply : {A : Type 0} {m : Ci A} → ((w : World) → Good G w → Ended G (m w)) → Runs G G m
  Runs_simply h = record { ended = h }

  pub Runs_give : {A : Type 0} (a : A) → Runs G G (give a)
  Runs_give a = Runs_simply (λ _ good. good)

  lift-Ended : {A : Type 0} (o : CiOutcome A) (w : World) → Good G w → Ended G (lift o w)
  lift-Ended (returned a) w good = good
  lift-Ended (raised e) w good = tt {0}

  pub Runs_lift : {A : Type 0} (o : CiOutcome A) → Runs G G (lift o)
  Runs_lift o = Runs_simply (lift-Ended o)

  choose-Ended :
      {A : Type 0} (b : Bool) (a : A) (e : CiError) (w : World)
      → (b ≡ true → Good G w)
      → Ended G ((if b then returned a else raised e), w)
  choose-Ended true a e w h = h refl
  choose-Ended false a e w h = tt {0}

  pub Runs_fail_if : (b : Bool) (e : CiError) → Runs G G (fail_if b e)
  Runs_fail_if true e = Runs_simply (λ _ good. tt {0})
  Runs_fail_if false e = Runs_simply (λ _ good. good)

  run_command_after :
      (secrets command : List String) (ends : List CommandEnd) (w : World)
      → Good G w
      → Ended G (run_command secrets command (record w { ends = ends }))
  unfolding run_command
  run_command_after secrets command [] w good = tt {0}
  run_command_after secrets command (not_started message ∷ rest) w good = tt {0}
  run_command_after secrets command (exited code out error_out schemas ∷ rest) w good =
      choose-Ended (code == 0) out _ _ (λ t. (
        All-append (λ c. c.exit_code ≡ 0) w.evidence _ good.0
            (ground (arith, t, nat_eq.beq_iff code 0)),
        good.1,
      ))

  pub Runs_run_command : (secrets command : List String) → Runs G G (run_command secrets command)
  Runs_run_command secrets command =
      Runs_simply (λ w good. run_command_after secrets command w.ends w good)

  run_git_after :
      (ends : List CommandEnd) (w : World) → Good G w → Ended G (run_git (record w { ends = ends }))
  unfolding run_git
  run_git_after [] w good = tt {0}
  run_git_after (not_started message ∷ rest) w good = tt {0}
  run_git_after (exited code out error_out schemas ∷ rest) w good = good

  pub Runs_if :
      {A : Type 0} (b : Bool) {m n : Ci A} → Runs G G m → Runs G G n → Runs G G (if b then m else n)
  Runs_if true m n = m
  Runs_if false m n = n

  pub Runs_run_git : Runs G G run_git
  Runs_run_git = Runs_simply (λ w good. run_git_after w.ends w good)

  pub Runs_git_value : Runs G G git_value
  unfolding git_value
  Runs_git_value = Keeps_bind run_git _ Runs_run_git (λ _. Runs_give _)

pub gate :
    (o : CiOutcome ℕ) (message : CiError) (H : Mode → Type 0) (w : World)
    → (o ≡ returned 0 → Good H w)
    → Ended H ((lift o >>= (λ n. fail_if (not (n == 0)) message)) w)
unfolding ◌>>=◌
gate (raised e) message H w h = tt {0}
gate (returned n) message H w h = elim (Bool-cases (n == 0)) [
  | inl z ↦
      subst (λ b. Ended H (fail_if (not b) message w)) (sym z)
        (h (ap returned (ground (arith, z, nat_eq.beq_iff n 0))))
  | inr f ↦ subst (λ b. Ended H (fail_if (not b) message w)) (sym f) (tt {0})
]
