-- ===== src/Prompt/Commands/Attempts.antt =====
-- Execute: how often a step with `max_attempts` runs its commands.
use mathlib.Core.Path.{subst}
use Prim.Native.Nat.{◌≤◌, ◌<◌}
use cloche.Base.{
  ok, err, ℕ, zero, suc, ◌+◌, ◌-◌, String, ◌≡◌, refl, ap, ◌∙◌, inl, inr, true, false, Option, some,
  List, [], ◌∷◌, if◌then◌else◌, ltb, All, arith, Bool-cases,
}
use cloche.Base.Int.{pos}
use cloche.Prompt.Text.{Text}
use cloche.Prompt.Assemble.{Assembled}
use cloche.Prompt.Commands.{
  Tried, Chain, no_chain, conclude, run_chain, Executed, gave_up, commands_failed, prompt_failed,
  step_result, is_exhausted, limit_of, count_after, run_commands, execute,
}

-- An execution that did not succeed, and one that ran.
abbrev pub IsFailure : Executed → Type 0
IsFailure e = count_after e 1 ≡ 1

abbrev pub ran : Executed → ℕ
ran gave_up = 0
ran _ = 1

abbrev pub count_ran : List Executed → ℕ
count_ran [] = 0
count_ran (e ∷ es) = ran e + count_ran es

-- the smaller of the executions and of the attempts that are left
abbrev pub attempts_left : ℕ → ℕ → ℕ → ℕ
attempts_left limit count n = if ltb n (limit - count) then n else limit - count

count_after_failure : (e : Executed) (k : ℕ) → IsFailure e → count_after e k ≡ k
unfolding count_after
count_after_failure gave_up k h = refl
count_after_failure commands_failed k h = refl
count_after_failure (prompt_failed e) k h = refl
count_after_failure (step_result r) k h = ground arith

ran-conclude : (s : Chain) → ran (conclude s) ≡ 1
unfolding conclude
ran-conclude s = ground arith

module _ {W : Type 0} (try : Text → Text → W → Tried × W) (commands : List Text)
    (max_attempts : Option String) (assemble : W → Assembled × W) where
  -- The step is executed so many times, one time after the other.
  abbrev pub executions : ℕ → ℕ → W → List Executed
  executions zero count world = []
  executions (suc n) count world =
      let (e, (count', world')) = execute try commands max_attempts assemble count world in
      e ∷ executions n count' world'

  ran_commands : (answer : Assembled × W) → ran (run_commands try commands answer).0 ≡ 1
  unfolding run_commands
  ran_commands (err e, world) = refl
  ran_commands (ok (warned, prompt), world) =
      ran-conclude (run_chain try commands prompt no_chain world).0

  module _ (limit : ℕ) (limited : limit_of max_attempts ≡ some (pos limit)) where
    execute_exhausted :
        (count : ℕ) (world : W)
        → limit ≤ count
        → execute try commands max_attempts assemble count world ≡ (gave_up, (count, world))
    unfolding execute is_exhausted
    execute_exhausted count world h =
        let over : is_exhausted (limit_of max_attempts) count ≡ true = rw limited (ground arith) in
        rw over refl

    execute_runs :
        (count : ℕ) (world : W)
        → count < limit
        → let (e, world') = run_commands try commands (assemble world) in
          execute try commands max_attempts assemble count world
          ≡ (e, (count_after e (count + 1), world'))
    unfolding execute is_exhausted
    execute_runs count world h =
        let below : is_exhausted (limit_of max_attempts) count ≡ false =
          rw limited (ground arith) in
        rw below refl

    executions_exhausted :
        (n count : ℕ) (world : W) → limit ≤ count → count_ran (executions n count world) ≡ 0
    executions_exhausted zero count world h = refl
    executions_exhausted (suc n) count world h =
        rw (execute_exhausted count world h) (omega (arith, executions_exhausted n count world h))

    -- A step whose `max_attempts` is a natural number is executed any number of times, one time after
    -- the other, from any count of attempts, whose file is read and written without an error, and no
    -- execution succeeds. Then as many executions as attempts were left, or all if they are fewer, go
    -- past the limit, each of which counts as an attempt also if its prompt or its commands fail; all
    -- the others give up.
    pub executions_failing :
        (n count : ℕ) (world : W)
        → All IsFailure (executions n count world)
        → count_ran (executions n count world) ≡ attempts_left limit count n
    executions_failing zero count world h = ground arith
    executions_failing (suc n) count world h = elim (Bool-cases (ltb count limit)) [
      | inl below ↦
          let answer = run_commands try commands (assemble world) in
          let same = execute_runs count world (ground arith) in
          let (failed, rest) =
            subst (λ x. IsFailure x.0 × All IsFailure (executions n x.1.0 x.1.1)) same h in
          let kept = count_after_failure answer.0 (count + 1) failed in
          let further =
            executions_failing n (count + 1) answer.1
              (subst (λ c. All IsFailure (executions n c answer.1)) kept rest) in
          ap (λ x. ran x.0 + count_ran (executions n x.1.0 x.1.1)) same
          ∙ ap (λ c. ran answer.0 + count_ran (executions n c answer.1)) kept
          ∙ ground (arith, ran_commands (assemble world), further)
      | inr over ↦ executions_exhausted (suc n) count world (ground arith) ∙ ground arith
    ]
