-- ===== src/Evolution/Fitness.antt =====
-- internal/evolution/fitness.go: what a run says of a candidate, and the candidates that none
-- dominates. A float64 is a parameter with its comparisons.
pub mod Retries
pub mod Front
use cloche.Base.{
  ℕ, zero, suc, ◌+◌, ◌-◌, ◌^◌, String, ◌≡◌, Bool, true, false, not, ◌&&◌, ◌||◌, Option, none, some,
  List, [], ◌∷◌, ◌++◌, if◌then◌else◌, ltb, any, Dict, lookup, insert,
}
use cloche.Run.{Run, RunState, succeeded, StepExecution, Time}

pub record FitnessRecord : Type 0 where
  pub run_id : String
  pub workflow_name : String
  pub candidate : String
  pub success : Bool
  pub retry_count : ℕ
  pub duration : ℕ
  pub timestamp : Time

-- a missing key of the map reads as 0
abbrev pub times : Option ℕ → ℕ
times none = 0
times (some n) = n

-- the loop over the executions, with `seen`
unfoldable pub count_retries : Dict ℕ → ℕ → List StepExecution → ℕ
unfolding lookup insert
count_retries seen retries [] = retries
count_retries seen retries (e ∷ es) =
    let n = times (lookup e.step_name seen) + 1 in
    count_retries (insert e.step_name n seen) (if ltb 1 n then retries + 1 else retries) es

abbrev pub max_duration : ℕ
max_duration = 2 ^ 63 - 1

-- `CompletedAt.Sub(StartedAt)` in nanoseconds, or 0 where that is negative: the zero time lies
-- before any other by more than a duration holds, and Sub stops at the longest duration
unfoldable pub duration_of : Time → Time → ℕ
duration_of started none = 0
duration_of none (some c) = max_duration
duration_of (some s) (some c) = if ltb max_duration (c - s) then max_duration else c - s

is_succeeded : RunState → Bool
is_succeeded succeeded = true
is_succeeded _ = false

-- `EvaluateRun`
unfoldable pub evaluate_run : Run → String → FitnessRecord
unfolding count_retries duration_of is_succeeded
evaluate_run r candidate = record {
  run_id = r.id;
  workflow_name = r.workflow_name;
  candidate = candidate;
  success = is_succeeded r.state;
  retry_count = count_retries [] 0 r.step_executions;
  duration = duration_of r.started_at r.completed_at;
  timestamp = r.completed_at;
}

-- The comparisons `>=` and `>` of float64, and what holds of them, also for a NaN, with which each
-- comparison is false.
pub record FloatOrder (F : Type 0) : Type 0 where
  pub ge : F → F → Bool
  pub gt : F → F → Bool
  pub ge_trans : (x y z : F) → ge x y ≡ true → ge y z ≡ true → ge x z ≡ true
  pub gt-ge : (x y z : F) → gt x y ≡ true → ge y z ≡ true → gt x z ≡ true
  pub ge-gt : (x y z : F) → ge x y ≡ true → gt y z ≡ true → gt x z ≡ true
  pub gt_irrefl : (x : F) → gt x x ≡ false

pub record CandidateFitness (F : Type 0) : Type 0 where
  pub candidate : String
  pub success_rate : F
  pub efficiency : F
  pub run_count : ℕ

module _ {F : Type 0} (o : FloatOrder F) where
  -- `Dominates`
  unfoldable pub dominates : CandidateFitness F → CandidateFitness F → Bool
  dominates a b =
      (o.ge a.success_rate b.success_rate && o.ge a.efficiency b.efficiency)
      && (o.gt a.success_rate b.success_rate || o.gt a.efficiency b.efficiency)

  -- the loop over `j`, which leaves out the index `i`
  unfoldable pub is_dominated :
      List (CandidateFitness F) → CandidateFitness F → List (CandidateFitness F) → Bool
  unfolding any dominates
  is_dominated before c after = any (λ d. dominates d c) before || any (λ d. dominates d c) after

  -- the loop over `i`, with the candidates before it
  unfoldable pub front_from :
      List (CandidateFitness F) → List (CandidateFitness F) → List (CandidateFitness F)
  unfolding is_dominated
  front_from before [] = []
  front_from before (c ∷ after) =
      let rest = front_from (before ++ c ∷ []) after in
      if is_dominated before c after then rest else c ∷ rest

  -- `ComputeParetoFront`
  unfoldable pub compute_pareto_front : List (CandidateFitness F) → List (CandidateFitness F)
  unfolding front_from
  compute_pareto_front candidates = front_from [] candidates
