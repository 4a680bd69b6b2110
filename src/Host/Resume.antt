-- ===== src/Host/Resume.antt =====
-- internal/host/runner.go: which results of an earlier run a resumed run starts with
-- (buildPreloadedResults), and which output files it takes over.
pub mod Fuel
pub mod Reached
pub mod Invariant
pub mod Correct
use cloche.Base.{
  ℕ, zero, suc, String, Bool, true, false, not, ◌&&◌, ◌||◌, Option, none, some, List, [], ◌∷◌, ◌==◌,
  if◌then◌else◌, Dict, lookup, insert, any, length, Result, ok, err,
}
use cloche.Workflow.{Workflow, is_terminal, next_steps, NextError}
use cloche.Run.{Run, StepExecution}

-- a result that is neither missing nor an error
unfoldable pub is_kept : String → Bool
is_kept result = not (result == "") && not (result == "error")

keep_result : StepExecution → Dict String → Dict String
unfolding is_kept
keep_result e m = if is_kept e.result then insert e.step_name e.result m else m

-- `stepResults`: the executions in order, so that a later result overwrites an earlier one
unfoldable pub step_results : Dict String → List StepExecution → Dict String
unfolding keep_result
step_results m [] = m
step_results m (e ∷ es) = step_results (keep_result e m) es

-- The variables that `walk` closes over; the map `visited` is the list of its keys.
pub record Walk : Type 0 where
  pub visited : List String
  pub preloaded : Dict String

unfoldable pub is_visited : String → Walk → Bool
unfolding any
is_visited name s = any (λ v. v == name) s.visited

-- `NextSteps`, where an error ends the walk
unfoldable pub next_targets : Workflow → String → String → List String
next_targets w name result = elim (next_steps w name result) [ ok ts ↦ ts | err e ↦ [] ]

-- the loop over the next steps; `none` means that the fuel of `walk` ran out
unfoldable pub walk_each : (String → Walk → Option Walk) → List String → Walk → Option Walk
walk_each go [] s = some s
walk_each go (t ∷ ts) s = elim (if is_terminal t then some s else go t s) [
  | none ↦ none
  | some s' ↦ walk_each go ts s'
]

unfoldable pub visit : String → Walk → Walk
visit name s = record s { visited = name ∷ s.visited }

unfoldable pub preload : String → String → Walk → Walk
preload name result s = record s { preloaded = insert name result s.preloaded }

-- what `walk` does at a step that it did not visit yet, by the result of the step
unfoldable pub walk_found :
    (String → Walk → Option Walk) → Workflow → String → Option String → Walk → Option Walk
unfolding walk_each next_targets preload
walk_found go w name none s = some s
walk_found go w name (some result) s =
    walk_each go (next_targets w name result) (preload name result s)

-- `walk`
unfoldable pub walk : Workflow → Dict String → String → ℕ → String → Walk → Option Walk
unfolding is_visited walk_found visit
walk w results resume_from zero name s = none
walk w results resume_from (suc fuel) name s =
    if is_visited name s || name == resume_from
    then some s
    else walk_found (walk w results resume_from fuel) w name (lookup name results) (visit name s)

abbrev pub empty_walk : Walk
empty_walk = record { visited = []; preloaded = [] }

-- every nested call of `walk` but the last visits a step with a result
abbrev pub walk_fuel : Dict String → ℕ
walk_fuel results = suc (length results)

-- the walk from the entry step
unfoldable pub walk_from_entry : Workflow → Dict String → String → Option Walk
unfolding walk
walk_from_entry w results resume_from =
    walk w results resume_from (walk_fuel results) w.entry_step empty_walk

unfoldable pub preloaded_of : Option Walk → Option (Dict String)
preloaded_of none = none
preloaded_of (some s) = some s.preloaded

-- `buildPreloadedResults`
unfoldable pub build_preloaded_results : Run → Workflow → String → Option (Dict String)
unfolding step_results walk_from_entry preloaded_of
build_preloaded_results run w resume_from =
    preloaded_of (walk_from_entry w (step_results [] run.step_executions) resume_from)
