-- ===== src/Engine/Returns.antt =====
-- Every schedule that lets enough goroutines finish makes `Run` return, and what it then returns.
use Prim.Native.Nat.{◌≤◌}
use cloche.Base.{
  ℕ, ◌+◌, String, ◌≡◌, refl, ◌⊎◌, inl, inr, false, ◌&&◌, Option, none, some, List, [], ◌∷◌, ◌==◌,
  if◌then◌else◌, All, any, length, ok, err, arith, Bool-cases,
}
use cloche.Workflow.{Step, Workflow}
use cloche.Run.{
  running, succeeded, failed, cancelled, Run, StepExecution, is_zero, record_complete,
  record_skipped, complete, mark_last, complete_with, skip_with,
}
use cloche.Run.Steps.{
  count, IsBalanced, count-remove_first, record_complete-IsBalanced, record_skipped-IsBalanced,
}
use cloche.Engine.{
  Engine, Loop, Launch, Flight, StepResult, TokenUsage, ExecError, Call, run_complete,
  step_complete, step_skipped, RunError, workflow_cancelled, is_result_declared, is_context_error,
}
use cloche.Engine.Wiring.{route}
use cloche.Engine.Events.{
  Ended, returned, panicked, Turn, end_run, or_fail, route_or_fail, limited_result, add_usage,
  settle, executed, skipped_over, handle_found, plain_fail, trigger_of,
}
use cloche.Engine.Invariant.{count_flights, is_end, IsKeyed, IsKnown, Sound, Inv, Leaves, route-Inv}

-- A returned run: its steps are within the bound, its active steps are its open executions, the
-- status handler heard of its end once, last, and a run that succeeded, or was cancelled, has no
-- active step left.
pub record GoodEnd (e : Engine) (r : Run) (x : Option RunError) (calls : List Call) : Type 0 where
  pub executions : length r.step_executions ≤ e.max_steps
  pub balanced : IsBalanced r
  pub completed : is_zero r.completed_at ≡ false
  pub reported : (cs : List Call) × (calls ≡ run_complete r.state ∷ cs) × (any is_end cs ≡ false)
  pub verdict :
      (r.state ≡ failed)
      ⊎ ((((r.state ≡ succeeded) × (x ≡ none))
            ⊎ ((r.state ≡ cancelled) × (x ≡ some workflow_cancelled)))
          × (r.active_steps ≡ []))

abbrev pub EndsWell : Engine → Ended → Type 0
EndsWell e (returned r x calls) = GoodEnd e r x calls
EndsWell e panicked = ⊥

-- A turn either goes on in a state that has the property, or ends well.
abbrev pub Goes : Engine → (Loop → Type 0) → Turn → Type 0
Goes e P (ok s) = P s
Goes e P (err x) = EndsWell e x

-- What an early end needs of the run.
pub record Bounded (e : Engine) (r : Run) (calls : List Call) : Type 0 where
  pub executions : length r.step_executions ≤ e.max_steps
  pub balanced : IsBalanced r
  pub not_ended : any is_end calls ≡ false

pub Sound-Bounded :
    {e : Engine} {w : Workflow} {k : ℕ} {r : Run} {fs : List Flight} {a n : ℕ} {calls : List Call}
    → Sound e w k r fs a n calls
    → Bounded e r calls
Sound-Bounded h = record {
  executions = omega (arith, h.recorded, h.bounded);
  balanced = h.balanced;
  not_ended = h.not_ended;
}

pub end_run_failed :
    (e : Engine) (now : ℕ) (x : Option RunError) (s : Loop)
    → Bounded e s.run s.calls
    → EndsWell e (end_run now failed x s)
unfolding end_run complete
end_run_failed e now x s h = record {
  executions = h.executions;
  balanced = h.balanced;
  completed = refl;
  reported = (s.calls, refl, h.not_ended);
  verdict = inl refl;
}

length-mark_last :
    (name : String) (f : StepExecution → StepExecution) (es : List StepExecution)
    → length (mark_last name f es) ≡ length es
unfolding mark_last
length-mark_last name f [] = refl
length-mark_last name f (e ∷ es) = ground (arith, length-mark_last name f es)

-- The goroutine of a step has left `in_flight`, and the run still has the step active.
pub record Pending (e : Engine) (w : Workflow) (k : ℕ) (name : String) (r : Run) (fs : List Flight)
    (active steps : ℕ) (calls : List Call) : Type 0 where
  pub counted : active ≡ length fs
  pub bounded : steps ≤ e.max_steps
  pub credit : steps + k ≡ e.max_steps + active
  pub recorded : length r.step_executions ≡ steps
  pub matched :
      (n : String)
      → count (λ a. a == n) r.active_steps ≡ (if name == n then 1 else 0) + count_flights n fs
  pub balanced : IsBalanced r
  pub is_running : r.state ≡ running
  pub not_ended : any is_end calls ≡ false
  pub known : All (IsKnown w) fs

abbrev pub PendingIn : Engine → Workflow → ℕ → String → Loop → Type 0
PendingIn e w k name s = Pending e w k name s.run s.in_flight s.active_count s.step_count s.calls

module _ (e : Engine) (w : Workflow) (k now : ℕ) (name : String) where
  record_complete-Inv :
      (result : String) (s : Loop)
      → PendingIn e w k name s
      → Inv e w k (record s { run = record_complete now name result s.run })
  unfolding record_complete
  record_complete-Inv result s h = record {
    counted = h.counted;
    bounded = h.bounded;
    credit = h.credit;
    recorded =
        omega (
          arith,
          h.recorded,
          length-mark_last name (complete_with now result) s.run.step_executions,
        );
    matched = λ n. ground (arith, h.matched n, count-remove_first name n s.run.active_steps);
    balanced = record_complete-IsBalanced now name result s.run h.balanced;
    is_running = h.is_running;
    not_ended = h.not_ended;
    known = h.known;
  }

  record_skipped-Inv :
      (wire : String) (s : Loop)
      → PendingIn e w k name s
      → Inv e w k (record s { run = record_skipped now name wire s.run })
  unfolding record_skipped
  record_skipped-Inv wire s h = record {
    counted = h.counted;
    bounded = h.bounded;
    credit = h.credit;
    recorded =
        omega (arith, h.recorded, length-mark_last name (skip_with now wire) s.run.step_executions);
    matched = λ n. ground (arith, h.matched n, count-remove_first name n s.run.active_steps);
    balanced = record_skipped-IsBalanced now name wire s.run h.balanced;
    is_running = h.is_running;
    not_ended = h.not_ended;
    known = h.known;
  }

  add_usage-Inv : (u : Option TokenUsage) (s : Loop) → Inv e w k s → Inv e w k (add_usage w u s)
  unfolding add_usage
  add_usage-Inv none s h = h
  add_usage-Inv (some u) s h = h

  note_call :
      (c : Call) (s : Loop)
      → is_end c ≡ false
      → Inv e w k s
      → Inv e w k (record s { calls = c ∷ s.calls })
  unfolding any
  note_call c s not_end h = record {
    counted = h.counted;
    bounded = h.bounded;
    credit = h.credit;
    recorded = h.recorded;
    matched = h.matched;
    balanced = h.balanced;
    is_running = h.is_running;
    not_ended = rw not_end h.not_ended;
    known = h.known;
  }

module _ (e : Engine) (w : Workflow) (keyed : IsKeyed w) (k now : ℕ) where
  or_fail-Goes : (m : Launch) → Leaves (Inv e w k) m → Goes e (Inv e w k) (or_fail now m)
  unfolding or_fail
  or_fail-Goes (ok s) h = h
  or_fail-Goes (err (x, s)) h = end_run_failed e now (some x) s (Sound-Bounded h)

  route_or_fail-Goes :
      (sr : StepResult) (s : Loop) → Inv e w k s → Goes e (Inv e w k) (route_or_fail e w now sr s)
  unfolding route_or_fail
  route_or_fail-Goes sr s h =
      or_fail-Goes (route e w now (trigger_of sr) s) (route-Inv e w keyed now (trigger_of sr) k s h)

  failed_with :
      (name result : String) (x : Option RunError) (s : Loop)
      → PendingIn e w k name s
      → EndsWell e (end_run now failed x (record s { run = record_complete now name result s.run }))
  failed_with name result x s h =
      end_run_failed e now x (record s { run = record_complete now name result s.run })
        (Sound-Bounded (record_complete-Inv e w k now name result s h))

  settle-Goes :
      (step : Step) (sr : StepResult) (s : Loop)
      → PendingIn e w k sr.step_name s
      → Goes e (Inv e w k) (settle e w now step sr s)
  unfolding settle
  settle-Goes step sr s h = elim (Bool-cases (is_result_declared step sr.result)) [
    | inl d ↦
        let result = limited_result step sr in
        let done = record_complete-Inv e w k now sr.step_name result s h in
        rw d (
          route_or_fail-Goes (record sr { result = result }) _
            (add_usage-Inv e w k now sr.step_name sr.usage _ (
              note_call e w k now sr.step_name (step_complete sr.step_name result)
                (record s { run = record_complete now sr.step_name result s.run }) refl done)))
    | inr d ↦ rw d (failed_with sr.step_name sr.result _ s h)
  ]

  executed-Goes :
      (step : Step) (sr : StepResult) (x : Option ExecError) (s : Loop)
      → PendingIn e w k sr.step_name s
      → Goes e (Inv e w k) (executed e w now step sr x s)
  unfolding executed plain_fail
  executed-Goes step sr none s h = settle-Goes step sr s h
  executed-Goes step sr (some x) s h =
      let closed = record_complete-Inv e w k now sr.step_name "error" s h in
      elim (Bool-cases (s.cancelled && is_context_error x)) [
        | inl c ↦ elim (Bool-cases (is_result_declared step "fail")) [
          | inl d ↦ rw (c, d) (settle-Goes step (plain_fail sr) s h)
          | inr d ↦ rw (c, d) closed
        ]
        | inr c ↦ rw c (failed_with sr.step_name "error" _ s h)
      ]

  skipped_over-Goes :
      (step : Step) (sr : StepResult) (s : Loop)
      → PendingIn e w k sr.step_name s
      → Goes e (Inv e w k) (skipped_over e w now step sr s)
  unfolding skipped_over
  skipped_over-Goes step sr s h = elim (Bool-cases (is_result_declared step sr.result)) [
    | inl d ↦
        let done = record_skipped-Inv e w k now sr.step_name sr.result s h in
        rw d (
          route_or_fail-Goes sr _ (
            note_call e w k now sr.step_name (step_skipped sr.step_name sr.result)
              (record s { run = record_skipped now sr.step_name sr.result s.run }) refl done))
    | inr d ↦ rw d (failed_with sr.step_name sr.result _ s h)
  ]

  pub handle_found-Goes :
      (sr : StepResult) (s : Loop) (step : Step)
      → PendingIn e w k sr.step_name s
      → Goes e (Inv e w k) (handle_found e w now sr s (some step))
  unfolding handle_found
  handle_found-Goes sr s step h = elim (Bool-cases sr.skipped) [
    | inl c ↦ simp c (skipped_over-Goes step sr s h)
    | inr c ↦ simp c (executed-Goes step sr sr.error _ h)
  ]
