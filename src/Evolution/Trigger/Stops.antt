-- ===== src/Evolution/Trigger/Stops.antt =====
-- Stop ends all that was put off, and of several calls of Fire for a key only the last is pending.
use mathlib.Core.Path.{subst}
use cloche.Evolution.Trigger.Released.{
  due_calls-start, run_func-cases, CallsDue, CallsDue-refl, CallsDue-same, CallsDue-finish,
  CallsDue-stop,
}
use cloche.Base.{
  modify, ℕ, String, ◌≡◌, refl, ap, sym, ◌∙◌, inl, inr, Bool, true, false, Option, none, some, List,
  [], ◌∷◌, get_elem?, lookup, arith,
}
use cloche.Base.Int.{ℤ}
use cloche.Evolution.Trigger.{
  released, run_func, arguments, runs_func, Phase, waiting, stopped, started, finished, Timer,
  Trigger, new_trigger, fire, elapse, start_timer, finish_timer, callback, callback_of, callback_at,
  stop, Event, fires, elapses, calls_back, stops, step, replay,
}
use cloche.Evolution.Trigger.Timers.{After, After-modify}
use cloche.Evolution.Trigger.Mapped.{
  stop-IsIdle, AreMapped, IsIdle, fire-AreMapped, elapse-IsBegun, start_timer-ne-waiting,
  start_timer-started,
}
use cloche.Evolution.Trigger.Callbacks.{callback-AreMapped, run_func-AreMapped}

-- A schedule in which no goroutine has to wait for the lock: it has it as soon as it is started. It
-- calls `RunFunc` at any time later.
pub data IsPrompt : List Event → Type 0 where
  nothing : IsPrompt []
  then_fires :
      (project_dir workflow_name run_id : String) (es : List Event)
      → IsPrompt es
      → IsPrompt (fires project_dir workflow_name run_id ∷ es)
  then_stops : (es : List Event) → IsPrompt es → IsPrompt (stops ∷ es)
  then_runs : (i : ℕ) (es : List Event) → IsPrompt es → IsPrompt (runs_func i ∷ es)
  then_elapses : (i : ℕ) (es : List Event) → IsPrompt es → IsPrompt (elapses i ∷ calls_back i ∷ es)

IsIdle-AreMapped : (t : Trigger) → IsIdle t → AreMapped t
IsIdle-AreMapped t h = record {
  mapped = λ j c found waits. absurd (h.calm j c found waits);
  settled = h.settled;
}

replay-AreMapped :
    (es : List Event) (t : Trigger) → IsPrompt es → AreMapped t → AreMapped (replay es t)
unfolding replay step
replay-AreMapped es t nothing h = h
replay-AreMapped es t (then_fires project_dir workflow_name run_id rest p) h =
    replay-AreMapped rest (fire project_dir workflow_name run_id t) p
      (fire-AreMapped project_dir workflow_name run_id t h)
replay-AreMapped es t (then_stops rest p) h =
    replay-AreMapped rest (stop t) p (IsIdle-AreMapped (stop t) (stop-IsIdle t h))
replay-AreMapped es t (then_runs i rest p) h =
    replay-AreMapped rest (run_func i t) p (run_func-AreMapped i t h)
replay-AreMapped es t (then_elapses i rest p) h =
    replay-AreMapped rest (callback i (elapse i t)) p
      (callback-AreMapped i (elapse i t) (elapse-IsBegun i t h))

abbrev pub fires_none : List Event → Bool
fires_none [] = true
fires_none (fires project_dir workflow_name run_id ∷ es) = false
fires_none (_ ∷ es) = fires_none es

callback_of-IsIdle :
    (i : ℕ) (cell : Timer) (p : Phase) (t : Trigger)
    → (p ≡ started → ⊥)
    → callback_of i cell p t ≡ t
unfolding callback_of
callback_of-IsIdle i cell started t h = absurd (h refl)
callback_of-IsIdle i cell waiting t h = refl
callback_of-IsIdle i cell stopped t h = refl
callback_of-IsIdle i cell released t h = refl
callback_of-IsIdle i cell finished t h = refl

callback-IsIdle : (i : ℕ) (t : Trigger) → IsIdle t → callback i t ≡ t
unfolding callback callback_at
callback-IsIdle i t h = at_cell (get_elem? t.timers i) refl
  where
    at_cell : (o : Option Timer) → get_elem? t.timers i ≡ o → callback_at i o t ≡ t
    at_cell none missing = refl
    at_cell (some cell) found =
        callback_of-IsIdle i cell cell.phase t (λ begun. h.settled i cell found begun)

elapse-IsIdle : (i : ℕ) (t : Trigger) → IsIdle t → IsIdle (elapse i t)
unfolding elapse After
elapse-IsIdle i t h = record {
  calm = λ j c found waits. elim (After-modify i j start_timer t.timers c found) [
    | inl (e, (c', found', same)) ↦ start_timer-ne-waiting c' (ap (λ x. x.phase) (sym same) ∙ waits)
    | inr (differs, found') ↦ h.calm j c found' waits
  ];
  settled = λ j c found begun. elim (After-modify i j start_timer t.timers c found) [
    | inl (e, (c', found', same)) ↦
        elim (start_timer-started c' (ap (λ x. x.phase) (sym same) ∙ begun)) [
          | inl waits ↦ h.calm j c' found' waits
          | inr begun' ↦ h.settled j c' found' begun'
        ]
    | inr (differs, found') ↦ h.settled j c found' begun
  ];
}

IsIdle-finish :
    (i : ℕ) (t : Trigger) (calls : List (String × String × String))
    → IsIdle t
    → IsIdle (record t { timers = modify i finish_timer t.timers; calls = calls })
unfolding After finish_timer
IsIdle-finish i t calls h = record {
  calm = λ j c found waits. elim (After-modify i j finish_timer t.timers c found) [
    | inl (e, (c', found', e')) ↦ cc (ap (λ (x : Timer). x.phase) e', waits)
    | inr (differs, found') ↦ h.calm j c found' waits
  ];
  settled = λ j c found begun. elim (After-modify i j finish_timer t.timers c found) [
    | inl (e, (c', found', e')) ↦ cc (ap (λ (x : Timer). x.phase) e', begun)
    | inr (differs, found') ↦ h.settled j c found' begun
  ];
}

-- Where nothing waits, only what is due is called until Fire is called again.
replay-IsIdle :
    (es : List Event) (t : Trigger) → fires_none es ≡ true → IsIdle t → CallsDue t (replay es t)
unfolding replay step elapse
replay-IsIdle [] t quiet h = CallsDue-refl t
replay-IsIdle (fires project_dir workflow_name run_id ∷ es) t quiet h = cc
replay-IsIdle (elapses i ∷ es) t quiet h =
    CallsDue-same t (elapse i t) (replay es (elapse i t)) refl (due_calls-start i t.timers)
      (replay-IsIdle es (elapse i t) quiet (elapse-IsIdle i t h))
replay-IsIdle (calls_back i ∷ es) t quiet h =
    subst (λ u. CallsDue t (replay es u)) (sym (callback-IsIdle i t h)) (replay-IsIdle es t quiet h)
replay-IsIdle (stops ∷ es) t quiet h =
    CallsDue-stop t (replay es (stop t))
      (replay-IsIdle es (stop t) quiet (stop-IsIdle t (IsIdle-AreMapped t h)))
replay-IsIdle (runs_func i ∷ es) t quiet h = elim (run_func-cases i t) [
  | inl same ↦ subst (λ u. CallsDue t (replay es u)) (sym same) (replay-IsIdle es t quiet h)
  | inr (cell, found, due, runs) ↦
      subst (λ u. CallsDue t (replay es u)) (sym runs)
        (CallsDue-finish i cell t
          (replay es (record t {
            timers = modify i finish_timer t.timers;
            calls = arguments cell ∷ t.calls;
          }))
          found due
          (replay-IsIdle es
            (record t { timers = modify i finish_timer t.timers; calls = arguments cell ∷ t.calls })
            quiet (IsIdle-finish i t (arguments cell ∷ t.calls) h)))
]

new_trigger-AreMapped : (debounce_seconds : ℤ) → AreMapped (new_trigger debounce_seconds)
unfolding new_trigger
new_trigger-AreMapped debounce_seconds = record {
  mapped = λ j c found waits. cc;
  settled = λ j c found begun. cc;
}

abbrev pub IsWaiting : ℕ → String → Trigger → Type 0
IsWaiting i key t =
    (c : Timer) × (get_elem? t.timers i ≡ some c) × (c.phase ≡ waiting) × (c.key ≡ key)

-- Take a schedule of a new trigger in which no goroutine of a timer has to wait for the lock once it
-- is started. Then two timers that wait under the same key are one timer. And after a call of Stop,
-- until Fire is called, `RunFunc` is called only by goroutines that had released the lock before Stop
-- and had not called it yet, by each at most once and with its arguments, whatever the timers do.
pub replay-stop :
    (debounce_seconds : ℤ) (es : List Event)
    → IsPrompt es
    → ((key : String) (i j : ℕ)
        → IsWaiting i key (replay es (new_trigger debounce_seconds))
        → IsWaiting j key (replay es (new_trigger debounce_seconds))
        → i ≡ j)
      × ((fs : List Event)
          → fires_none fs ≡ true
          → CallsDue
              (replay es (new_trigger debounce_seconds))
              (replay fs (stop (replay es (new_trigger debounce_seconds)))))
replay-stop debounce_seconds es p =
    let t = replay es (new_trigger debounce_seconds) in
    let h =
      replay-AreMapped es (new_trigger debounce_seconds) p
        (new_trigger-AreMapped debounce_seconds) in
    (
      λ key i j (c, found, waits, same) (c', found', waits', same').
          let one = h.mapped i c found waits in
          let other = h.mapped j c' found' waits' in
          let keys = ap (λ k. lookup k t.pending) (same ∙ sym same') in
          ground (arith, sym one ∙ keys ∙ other),
      λ fs quiet.
          CallsDue-stop t (replay fs (stop t)) (replay-IsIdle fs (stop t) quiet (stop-IsIdle t h)),
    )
