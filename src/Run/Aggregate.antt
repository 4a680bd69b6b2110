-- ===== src/Run/Aggregate.antt =====
-- The aggregate status of a group of runs: `WorseState`, `AttemptAggregateStatus` and
-- `TaskAggregateStatus` of internal/domain/run.go.
pub mod Worst
pub mod Covers
pub mod Latest
use cloche.Base.{
  ℕ, zero, suc, ◌+◌, ◌<◌, ◌≤◌, String, ◌≡◌, refl, ◌≢◌, ◌⊎◌, ◌↔◌, Bool, true, false, not, ◌&&◌, ◌||◌,
  Option, none, some, List, [], ◌∷◌, ◌++◌, map, ◌==◌, if◌then◌else◌, ltb, any, any_iff, All, Any,
  arith, Dict, lookup, insert,
}
use cloche.Run.{
  RunState, pending, running, waiting, succeeded, failed, cancelled, parked, Time, Run,
}

-- `stateSeverity`; the scores are moved up by one, so that -1 is 0
unfoldable pub state_severity : RunState → ℕ
state_severity succeeded = 1
state_severity cancelled = 2
state_severity failed = 3
state_severity _ = 0

-- `WorseState`
unfoldable pub worse_state : RunState → RunState → RunState
unfolding state_severity
worse_state a b = if ltb (state_severity a) (state_severity b) then b else a

-- `t.After(u)`
abbrev pub after : Time → Time → Bool
after none u = false
after (some t) none = true
after (some t) (some u) = ltb u t

keep_later : Option Run → Run → Dict Run → Dict Run
keep_later none r latest = insert r.workflow_name r latest
keep_later (some prev) r latest =
    if after r.started_at prev.started_at then insert r.workflow_name r latest else latest

pub collect_latest : Dict Run → List Run → List Run → Dict Run × List Run
unfolding keep_later lookup insert
collect_latest latest unnamed [] = (latest, unnamed)
collect_latest latest unnamed (r ∷ rs) =
    if r.workflow_name == ""
    then collect_latest latest (unnamed ++ r ∷ []) rs
    else collect_latest (keep_later (lookup r.workflow_name latest) r latest) unnamed rs

abbrev values : Dict Run → List Run
values [] = []
values ((k, r) ∷ m) = r ∷ values m

-- `latestByWorkflowName`
unfoldable pub latest_by_workflow_name : List Run → List Run
unfolding collect_latest
latest_by_workflow_name rs =
    let (latest, unnamed) = collect_latest [] [] rs in values latest ++ unnamed

abbrev is_running : RunState → Bool
is_running running = true
is_running _ = false

abbrev is_waiting : RunState → Bool
is_waiting waiting = true
is_waiting _ = false

abbrev is_pending : RunState → Bool
is_pending pending = true
is_pending _ = false

unfoldable pub worst : RunState → List Run → RunState
unfolding worse_state
worst result [] = result
worst result (r ∷ rs) = worst (worse_state result r.state) rs

-- the part that both aggregates share: an active status, if any run has one
unfoldable pub active_status : List Run → Option RunState
unfolding any
active_status rs =
    if any (λ r. is_running r.state) rs
    then some running
    else if any (λ r. is_waiting r.state) rs
    then some waiting
    else if any (λ r. is_pending r.state) rs
    then some pending
    else none

or_else : Option RunState → RunState → RunState
or_else none s = s
or_else (some s) _ = s

-- the part of `AttemptAggregateStatus` behind the removal of superseded runs
unfoldable pub aggregate : List Run → RunState
unfolding or_else active_status worst
aggregate rs = or_else (active_status rs) (worst succeeded rs)

-- `AttemptAggregateStatus`
unfoldable pub attempt_aggregate_status : List Run → RunState
unfolding aggregate latest_by_workflow_name
attempt_aggregate_status [] = pending
attempt_aggregate_status (r ∷ rs) = aggregate (latest_by_workflow_name (r ∷ rs))

-- `best == nil || r.StartedAt.After(best.StartedAt)`
abbrev starts_later : Run → Option Run → Bool
starts_later r none = true
starts_later r (some best) = after r.started_at best.started_at

-- the loop that finds the latest run among those that pass a test
unfoldable pub latest_from : (Run → Bool) → Option Run → List Run → Option Run
latest_from p best [] = best
latest_from p best (r ∷ rs) = latest_from p (if p r && starts_later r best then some r else best) rs

prefer : Option Run → Option Run → RunState
prefer (some host) _ = host.state
prefer none (some r) = r.state
prefer none none = pending

-- `TaskAggregateStatus`; the last case of `prefer` stands for no run and does not arise
unfoldable pub task_aggregate_status : List Run → RunState
unfolding or_else active_status latest_from prefer
task_aggregate_status [] = pending
task_aggregate_status (r ∷ rs) =
    or_else (active_status (r ∷ rs))
      (prefer (latest_from (λ x. x.is_host) none (r ∷ rs)) (latest_from (λ x. true) none (r ∷ rs)))
