-- ===== src/Engine/Wiring.antt =====
-- What `Run` does with a result that it has recorded: the wires, then the collects.
use cloche.Base.{
  ℕ, suc, ◌+◌, String, Bool, true, false, not, ◌&&◌, ◌||◌, List, [], ◌∷◌, ◌==◌, if◌then◌else◌, ltb,
  eqb, any, length, Result, ok, err, ◌>>=◌,
}
use cloche.Workflow.{
  WireCondition, CollectMode, collect_all, collect_any, Collect, Workflow, step_done, step_abort,
  next_steps, NextError,
}
use cloche.Engine.{
  Engine, Loop, StepTrigger, CollectState, Launch, RunError, no_wiring, launch_step,
}

-- `switch target`: a terminal is counted, any other name is launched
unfoldable pub go_to : Engine → Workflow → ℕ → StepTrigger → String → Loop → Launch
go_to e w now trigger target s =
    if target == step_done
    then ok (record s { done_count = s.done_count + 1 })
    else if target == step_abort
    then ok (record s { aborted = true })
    else launch_step e w now target trigger s

unfoldable pub go_to_all : Engine → Workflow → ℕ → StepTrigger → List String → Loop → Launch
unfolding go_to
go_to_all e w now trigger [] s = ok s
go_to_all e w now trigger (t ∷ ts) s = do
  s' ← go_to e w now trigger t s
  go_to_all e w now trigger ts s'

abbrev pub is_for : String → String → WireCondition → Bool
is_for step result c = c.step == step && c.result == result

-- `collectHandled[step][result]`
unfoldable pub collect_handled : Workflow → String → String → Bool
unfolding any
collect_handled w step result =
    any (λ (c : Collect). any (is_for step result) c.conditions) w.collects

unfoldable pub unwired : Workflow → StepTrigger → Loop → Launch
unfolding collect_handled
unwired w t s =
    if collect_handled w t.prev_step t.prev_result
    then ok s
    else err (no_wiring t.prev_step t.prev_result, s)

unfoldable pub wired_or :
    Engine → Workflow → ℕ → StepTrigger → Loop → Result NextError (List String) → Launch
unfolding unwired go_to_all
wired_or e w now t s (ok targets) = go_to_all e w now t targets s
wired_or e w now t s (err x) = unwired w t s

-- the wires of the result; with none, some collect must take it
unfoldable pub follow_wires : Engine → Workflow → ℕ → StepTrigger → Loop → Launch
unfolding wired_or next_steps
follow_wires e w now t s = wired_or e w now t s (next_steps w t.prev_step t.prev_result)

-- the loop over the conditions of one collect
unfoldable pub satisfy : String → String → List WireCondition → List Bool → List Bool
satisfy step result [] marks = marks
satisfy step result (c ∷ cs) [] = []
satisfy step result (c ∷ cs) (b ∷ bs) = (b || is_for step result c) ∷ satisfy step result cs bs

unfoldable pub count_true : List Bool → ℕ
count_true [] = 0
count_true (true ∷ bs) = suc (count_true bs)
count_true (false ∷ bs) = count_true bs

-- `shouldFire`
unfoldable pub should_fire : CollectMode → Collect → List Bool → Bool
unfolding count_true
should_fire collect_all c marks = eqb (count_true marks) (length c.conditions)
should_fire collect_any c marks = ltb 0 (count_true marks)

unfoldable pub update_collect : StepTrigger → CollectState → CollectState
unfolding satisfy should_fire
update_collect t cs =
    let marks = satisfy t.prev_step t.prev_result cs.collect.conditions cs.satisfied in
    if cs.fired
    then cs
    else record cs { satisfied = marks; fired = should_fire cs.collect.mode cs.collect marks }

-- a collect that fires now
unfoldable pub fires : StepTrigger → CollectState → Bool
unfolding update_collect
fires t cs = not cs.fired && (update_collect t cs).fired

-- one turn of the loop over `cStates`: a collect that fires visits its target
unfoldable pub fire_collect : Engine → Workflow → ℕ → StepTrigger → CollectState → Loop → Launch
unfolding fires go_to
fire_collect e w now t cs s = if fires t cs then go_to e w now t cs.collect.target s else ok s

-- the states after the loop, with what it launched
unfoldable pub fire_each :
    Engine
    → Workflow
    → ℕ
    → StepTrigger
    → List CollectState
    → Loop
    → Result (RunError × Loop) (List CollectState × Loop)
unfolding fire_collect update_collect
fire_each e w now t [] s = ok ([], s)
fire_each e w now t (cs ∷ rest) s = do
  s' ← fire_collect e w now t cs s
  r ← fire_each e w now t rest s'
  ok (update_collect t cs ∷ r.0, r.1)

-- the loop over `cStates`; a launch reads no collect state
unfoldable pub fire_collects : Engine → Workflow → ℕ → StepTrigger → Loop → Launch
unfolding fire_each
fire_collects e w now t s = do
  r ← fire_each e w now t s.collects s
  ok (record (r.1) { collects = r.0 })

-- from the recorded result to the next turn of the loop
unfoldable pub route : Engine → Workflow → ℕ → StepTrigger → Loop → Launch
unfolding follow_wires fire_collects
route e w now t s = do s' ← follow_wires e w now t s; fire_collects e w now t s'
