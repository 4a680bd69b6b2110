-- ===== src/Engine/Invariant.antt =====
-- What holds of the variables of `Run` between two turns of its loop.
use Prim.Native.Nat.{◌≤◌}
use cloche.Base.{
  ℕ, ◌+◌, String, ◌≡◌, refl, ap, ◌∙◌, inl, inr, Bool, true, false, Option, none, some, List, [],
  ◌∷◌, ◌++◌, ◌==◌, if◌then◌else◌, ltb, lookup, All, All-append, any, length, length-append, Result,
  ok, err, ◌>>=◌, arith, Bool-cases,
}
use cloche.Workflow.{Step, Workflow, next_steps, NextError}
use cloche.Run.{running, Run, record_start}
use cloche.Run.Steps.{count, IsBalanced, count-append, record_start-IsBalanced}
use cloche.Engine.{
  Engine, Loop, Launch, Flight, replies, executes, StepTrigger, CollectState, Call, run_complete,
  RunError, choose_flight, launch_found, launch_step, preloaded_or_executes,
}
use cloche.Engine.Wiring.{
  go_to, go_to_all, follow_wires, wired_or, fire_collect, fire_each, fires, update_collect,
  fire_collects, route, collect_handled,
}

abbrev pub flight_name : Flight → String
flight_name (replies name result) = name
flight_name (executes step trigger) = step.name

abbrev pub count_flights : String → List Flight → ℕ
count_flights name [] = 0
count_flights name (f ∷ fs) = (if flight_name f == name then 1 else 0) + count_flights name fs

abbrev pub is_end : Call → Bool
is_end (run_complete state) = true
is_end _ = false

-- A step stands in the map under its own name, as the parser puts it there.
abbrev pub IsKeyed : Workflow → Type 0
IsKeyed w = (name : String) (step : Step) → lookup name w.steps ≡ some step → step.name ≡ name

abbrev pub IsKnown : Workflow → Flight → Type 0
IsKnown w f = (step : Step) × (lookup (flight_name f) w.steps ≡ some step)

-- `k` more results can arrive, whatever they are: each launch raises the count of steps.
pub record Sound (e : Engine) (w : Workflow) (k : ℕ) (r : Run) (fs : List Flight) (active steps : ℕ)
    (calls : List Call) : Type 0 where
  pub counted : active ≡ length fs
  pub bounded : steps ≤ e.max_steps
  pub credit : steps + k ≡ e.max_steps + active
  pub recorded : length r.step_executions ≡ steps
  pub matched : (name : String) → count (λ n. n == name) r.active_steps ≡ count_flights name fs
  pub balanced : IsBalanced r
  pub is_running : r.state ≡ running
  pub not_ended : any is_end calls ≡ false
  pub known : All (IsKnown w) fs

-- The other variables of the loop play no part in it.
abbrev pub Inv : Engine → Workflow → ℕ → Loop → Type 0
Inv e w k s = Sound e w k s.run s.in_flight s.active_count s.step_count s.calls

count_flights-append :
    (name : String) (fs gs : List Flight)
    → count_flights name (fs ++ gs) ≡ count_flights name fs + count_flights name gs
count_flights-append name [] gs = omega arith
count_flights-append name (f ∷ fs) gs = omega (arith, count_flights-append name fs gs)

flight_name-choose_flight :
    (e : Engine) (s : Loop) (name : String) (step : Step) (t : StepTrigger)
    → flight_name (choose_flight e s name step t) ≡ step.name
unfolding choose_flight preloaded_or_executes
flight_name-choose_flight e s name step t = ground arith

-- What holds of the state that a launch leaves, whether or not it succeeds.
abbrev pub Leaves : (Loop → Type 0) → Launch → Type 0
Leaves P (ok s) = P s
Leaves P (err (x, s)) = P s

pub >>=-Leaves :
    (P : Loop → Type 0) (m : Launch) (f : Loop → Launch)
    → Leaves P m
    → ((s : Loop) → P s → Leaves P (f s))
    → Leaves P (m >>= f)
>>=-Leaves P (ok s) f h k = k s h
>>=-Leaves P (err (x, s)) f h k = h

module _ (e : Engine) (w : Workflow) (keyed : IsKeyed w) (now : ℕ) (t : StepTrigger) (k : ℕ) where
  pub launch_found-Inv :
      (name : String) (s : Loop) (o : Option Step)
      → lookup name w.steps ≡ o
      → s.step_count + 1 ≤ e.max_steps
      → Inv e w k s
      → Leaves (Inv e w k) (launch_found e now name t s o)
  unfolding launch_found record_start any
  launch_found-Inv name s none found room h = h
  launch_found-Inv name s (some step) found room h =
      let f = choose_flight e s name step t in
      let named : flight_name f ≡ step.name = flight_name-choose_flight e s name step t in
      record {
        counted = omega (arith, h.counted, length-append s.in_flight (f ∷ []));
        bounded = omega arith;
        credit = omega (arith, h.credit);
        recorded = omega (
          arith,
          h.recorded,
          length-append {0} s.run.step_executions (
              record {
                step_name = step.name;
                result = "";
                skipped = false;
                started_at = some now;
                completed_at = none;
              }
              ∷ []),
        );
        matched = λ n. ground (
          arith,
          h.matched n,
          named,
          count-append (λ x. x == n) s.run.active_steps (step.name ∷ []),
          count_flights-append n s.in_flight (f ∷ []),
        );
        balanced = record_start-IsBalanced now step.name s.run h.balanced;
        is_running = h.is_running;
        not_ended = h.not_ended;
        known =
            All-append (IsKnown w) s.in_flight (f ∷ []) h.known
              ((step, ap (λ n. lookup n w.steps) (named ∙ keyed name step found) ∙ found), tt);
      }

  pub launch_step-Inv :
      (name : String) (s : Loop) → Inv e w k s → Leaves (Inv e w k) (launch_step e w now name t s)
  unfolding launch_step
  launch_step-Inv name s h = elim (Bool-cases (ltb e.max_steps (s.step_count + 1))) [
    | inl full ↦ rw full h
    | inr room ↦
        rw room (launch_found-Inv name s (lookup name w.steps) refl (ground (arith, room)) h)
  ]

  go_to-Inv : (name : String) (s : Loop) → Inv e w k s → Leaves (Inv e w k) (go_to e w now t name s)
  unfolding go_to
  go_to-Inv name s h = elim (Bool-cases (name == "done")) [
    | inl d ↦ rw d h
    | inr d ↦ elim (Bool-cases (name == "abort")) [
      | inl a ↦ rw (d, a) h
      | inr a ↦ rw (d, a) (launch_step-Inv name s h)
    ]
  ]

  go_to_all-Inv :
      (names : List String) (s : Loop)
      → Inv e w k s
      → Leaves (Inv e w k) (go_to_all e w now t names s)
  unfolding go_to_all
  go_to_all-Inv [] s h = h
  go_to_all-Inv (n ∷ ns) s h =
      >>=-Leaves (Inv e w k) (go_to e w now t n s) (go_to_all e w now t ns) (go_to-Inv n s h)
        (go_to_all-Inv ns)

  follow_wires-Inv : (s : Loop) → Inv e w k s → Leaves (Inv e w k) (follow_wires e w now t s)
  unfolding follow_wires
  follow_wires-Inv s h = go (next_steps w t.prev_step t.prev_result)
    where
      go :
          (r : Result NextError (List String))
          → Leaves (Inv e w k) (unfold wired_or in wired_or e w now t s r)
      go (ok ts) = go_to_all-Inv ts s h
      go (err x) = elim (Bool-cases (collect_handled w t.prev_step t.prev_result)) [
        | inl c ↦ rw c h
        | inr c ↦ rw c h
      ]

  fire_collect-Inv :
      (cs : CollectState) (s : Loop)
      → Inv e w k s
      → Leaves (Inv e w k) (fire_collect e w now t cs s)
  unfolding fire_collect
  fire_collect-Inv cs s h = elim (Bool-cases (fires t cs)) [
    | inl f ↦ rw f (go_to-Inv cs.collect.target s h)
    | inr f ↦ rw f h
  ]

abbrev Each : Type 0
Each = Result (RunError × Loop) (List CollectState × Loop)

abbrev LeavesEach : (Loop → Type 0) → Each → Type 0
LeavesEach P (ok (cs, s)) = P s
LeavesEach P (err (x, s)) = P s

then_each :
    (P : Loop → Type 0) (m : Launch) (f : Loop → Each)
    → Leaves P m
    → ((s : Loop) → P s → LeavesEach P (f s))
    → LeavesEach P (m >>= f)
then_each P (ok s) f h k = k s h
then_each P (err (x, s)) f h k = h

prepend_each :
    (P : Loop → Type 0) (c : CollectState) (r : Each)
    → LeavesEach P r
    → LeavesEach P (r >>= λ x. ok (c ∷ x.0, x.1))
prepend_each P c (ok (cs, s)) h = h
prepend_each P c (err (x, s)) h = h

module _ (e : Engine) (w : Workflow) (keyed : IsKeyed w) (now : ℕ) (t : StepTrigger) (k : ℕ) where
  fire_each-Inv :
      (css : List CollectState) (s : Loop)
      → Inv e w k s
      → LeavesEach (Inv e w k) (fire_each e w now t css s)
  unfolding fire_each
  fire_each-Inv [] s h = h
  fire_each-Inv (cs ∷ rest) s h =
      then_each (Inv e w k) (fire_collect e w now t cs s) _
        (fire_collect-Inv e w keyed now t k cs s h)
        (λ s' h'.
          prepend_each (Inv e w k) (update_collect t cs) (fire_each e w now t rest s')
            (fire_each-Inv rest s' h'))

  fire_collects-Inv : (s : Loop) → Inv e w k s → Leaves (Inv e w k) (fire_collects e w now t s)
  unfolding fire_collects
  fire_collects-Inv s h = go (fire_each e w now t s.collects s) (fire_each-Inv s.collects s h)
    where
      go :
          (r : Each)
          → LeavesEach (Inv e w k) r
          → Leaves (Inv e w k) (r >>= λ x. ok (record (x.1) { collects = x.0 }))
      go (ok (cs, s')) h' = h'
      go (err (x, s')) h' = h'

  pub route-Inv : (s : Loop) → Inv e w k s → Leaves (Inv e w k) (route e w now t s)
  unfolding route
  route-Inv s h =
      >>=-Leaves (Inv e w k) (follow_wires e w now t s) (fire_collects e w now t)
        (follow_wires-Inv e w keyed now t k s h) fire_collects-Inv
