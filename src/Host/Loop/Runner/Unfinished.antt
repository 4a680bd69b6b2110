-- ===== src/Host/Loop/Runner/Unfinished.antt =====
-- Which attempts are recorded as running.
use cloche.Base.{
  ℕ, ◌+◌, ◌-◌, String, true, ◌≡◌, ◌≢◌, inl, inr, Option, none, some, List, [], ◌∷◌, ◌++◌, lookup,
  take_at, All, All-append, Any, arith, Option-cases,
}
use mathlib.Core.Option.{some_inj}
use cloche.Run.{RunState, succeeded, Run}
use cloche.Task.{Attempt, attempt_running}
use cloche.Host.Loop.{Task, LoopConfig, pick_task_from_phase}
use cloche.Host.Loop.Runner.Guards.{at_look_lem, at_pick_lem}
use cloche.Host.Loop.Attempts.{Store, Saves, create_attempt_for_task, complete_attempt}
use cloche.Host.Loop.Runner.{
  Stage, looking, staggering, idling, backing_off, waiting, Runner, Worker, Completion, Outcome,
  final_state, track_title, drive_human_polls, refill, tick, look, launch, pick_and_launch, wake,
  notice_stop, judge, receive, finish, Event, looks, picks, wakes, notices_stop, receives, finishes,
  stops, step, replay, begin, not_begun,
}
use cloche.Host.Loop.Runner.Held.{
  attempts-track_title, AreHeld, create-AreHeld, complete-AreHeld, All-take_at,
}

-- Every worker has an attempt ID, and the attempts are held by the workers.
record IsTracked (r : Runner) : Type 0 where
  named : All (λ w. w.attempt_id ≢ "") r.workers
  held : AreHeld r.workers r.store.attempts

-- Neither the records nor the workers change.
IsSame : Runner → Runner → Type 0
IsSame r r' = (r'.store ≡ r.store) × (r'.workers ≡ r.workers)

same-IsTracked : (r r' : Runner) → IsSame r r' → IsTracked r → IsTracked r'
unfolding IsSame
same-IsTracked r r' (store, workers) t = record {
  named = rw workers t.named;
  held = rw (workers, store) t.held;
}

tick-IsSame : (r : Runner) → IsSame r (tick r)
unfolding IsSame tick refill
tick-IsSame r = ground arith

refill-IsSame : (r : Runner) → IsSame r (refill r)
unfolding IsSame refill
refill-IsSame r = ground arith

look-IsSame : (runs : Option (List Run)) (r : Runner) → IsSame r (look runs r)
unfolding IsSame look
look-IsSame runs r = ground arith

wake-IsSame : (s : Stage) (r r' : Runner) → wake s r ≡ some r' → IsSame r r'
unfolding IsSame wake
wake-IsSame staggering r r' h = ground arith
wake-IsSame idling r r' h = rw (← some_inj.0 h) (unfold IsSame in tick-IsSame (drive_human_polls r))
wake-IsSame backing_off r r' h = rw (← some_inj.0 h) (tick-IsSame (drive_human_polls r))
wake-IsSame waiting r r' h = rw (← some_inj.0 h) (tick-IsSame (drive_human_polls r))
wake-IsSame s r r' h = cc

notice_stop-IsSame : (s : Stage) (r r' : Runner) → notice_stop s r ≡ some r' → IsSame r r'
unfolding IsSame notice_stop
notice_stop-IsSame looking r r' h = cc
notice_stop-IsSame s r r' h = ground arith

judge-IsSame : (state : RunState) (r : Runner) → IsSame r (judge state r)
unfolding IsSame judge tick refill
judge-IsSame succeeded r = ground arith
judge-IsSame state r = ground arith

receive-IsSame :
    (s : Stage) (cs : List Completion) (r r' : Runner) → receive s cs r ≡ some r' → IsSame r r'
unfolding IsSame receive
receive-IsSame waiting (c ∷ cs) r r' h =
    rw (← some_inj.0 h)
      (judge-IsSame c.state (record r { in_flight = r.in_flight - 1; completions = cs }))
receive-IsSame s cs r r' h = cc

-- The IDs that are drawn are not empty, and an attempt that is completed is read and saved.
abbrev pub IsRecorded : Event → Type 0
IsRecorded (picks tasks attempt_id now saves) = attempt_id ≢ ""
IsRecorded (finishes k outcome now saves) =
    (saves.attempt_read ≡ true) × (saves.attempt_saved ≡ true)
IsRecorded _ = Unit

launch-IsTracked :
    (picked : Option Task) (attempt_id : String) (now : ℕ) (saves : Saves) (r : Runner)
    → attempt_id ≢ ""
    → IsTracked r
    → IsTracked (launch picked attempt_id now saves r)
unfolding launch
launch-IsTracked none attempt_id now saves r named t = record { named = t.named; held = t.held }
launch-IsTracked (some p) attempt_id now saves r named t =
    let newest : Worker = record {
      task_id = p.id;
      task_title = p.title;
      attempt_id = attempt_id;
    } in
    let launched : Runner = record r {
      store = create_attempt_for_task r.loop attempt_id p.id p.title now saves r.store;
      in_flight = r.in_flight + 1;
      launched = r.launched + 1;
      workers = r.workers ++ newest ∷ [];
    } in
    same-IsTracked launched (refill launched) (refill-IsSame launched) (record {
      named = All-append (λ w. w.attempt_id ≢ "") r.workers (newest ∷ []) t.named (named, tt);
      held = create-AreHeld r.loop attempt_id p.id p.title now saves r.store r.workers t.held;
    })

finish-IsTracked :
    (k : ℕ) (outcome : Outcome) (now : ℕ) (saves : Saves) (r r' : Runner)
    → (saves.attempt_read ≡ true) × (saves.attempt_saved ≡ true)
    → finish k outcome now saves r ≡ some r'
    → IsTracked r
    → IsTracked r'
unfolding finish
finish-IsTracked k outcome now saves r r' fine h t = elim (Option-cases (take_at k r.workers)) [
  | inl e ↦ absurd (ground (arith, e, h))
  | inr ((w, others), e) ↦
      let (name, names) = All-take_at (λ v. v.attempt_id ≢ "") k r.workers w others e t.named in
      let left : r'.workers ≡ others = ground (arith, e, h) in
      let titled = track_title outcome w.task_title saves r.store in
      let written : r'.store
          ≡ complete_attempt r.loop w.attempt_id (final_state outcome) now true true titled =
        ground (arith, e, h, fine) in
      let held : AreHeld r.workers titled.attempts =
        rw (attempts-track_title outcome w.task_title saves r.store) t.held in
      record {
        named = rw left names;
        held =
            rw (left, written)
              (complete-AreHeld r.loop (final_state outcome) now titled k w r.workers others e name
                held);
      }
]

step-IsTracked :
    (e : Event) (r r' : Runner) → IsRecorded e → step e r ≡ some r' → IsTracked r → IsTracked r'
unfolding step pick_and_launch
step-IsTracked (looks runs) r r' fine h t =
    rw (← (at_look_lem r.stage (look runs r) r' h).1)
      (same-IsTracked r (look runs r) (look-IsSame runs r) t)
step-IsTracked (picks tasks attempt_id now saves) r r' fine h t =
    let (picked, l) = pick_task_from_phase tasks now r.loop in
    rw (← (at_pick_lem r.stage (pick_and_launch tasks attempt_id now saves r) r' h).1) (
      launch-IsTracked picked attempt_id now saves (record r { loop = l }) fine
        (record { named = t.named; held = t.held }))
step-IsTracked wakes r r' fine h t = same-IsTracked r r' (wake-IsSame r.stage r r' h) t
step-IsTracked notices_stop r r' fine h t =
    same-IsTracked r r' (notice_stop-IsSame r.stage r r' h) t
step-IsTracked receives r r' fine h t =
    same-IsTracked r r' (receive-IsSame r.stage r.completions r r' h) t
step-IsTracked (finishes k outcome now saves) r r' fine h t =
    finish-IsTracked k outcome now saves r r' fine h t
step-IsTracked stops r r' fine h t = rw (← some_inj.0 h) (record { named = t.named; held = t.held })

replay-IsTracked :
    (es : List Event) (r r' : Runner)
    → All IsRecorded es
    → replay es r ≡ some r'
    → IsTracked r
    → IsTracked r'
unfolding replay
replay-IsTracked [] r r' fine h t = rw (← some_inj.0 h) t
replay-IsTracked (e ∷ es) r r' fine h t = elim (Option-cases (step e r)) [
  | inl stuck ↦ absurd (ground (arith, h, stuck))
  | inr (q, stepped) ↦
      replay-IsTracked es q r' fine.1 (ground (arith, h, stepped))
        (step-IsTracked e r q fine.0 stepped t)
]

-- From a store in which every attempt is kept under its ID and none runs, while the IDs that are
-- drawn are not empty and completed attempts are read and saved, an attempt that is recorded as running has the
-- ID of a worker that still runs, however events interleave, runs fail and main functions panic.
pub replay-AreHeld :
    (es : List Event) (c : LoopConfig) (store : Store) (r : Runner)
    → All IsRecorded es
    → ((id : String) (a : Attempt)
        → lookup id store.attempts ≡ some a
        → (a.id ≡ id) × (a.result ≢ attempt_running))
    → replay es (begin c store) ≡ some r
    → (id : String) (a : Attempt) → lookup id r.store.attempts ≡ some a
    → a.result ≡ attempt_running
    → Any (λ w. w.attempt_id ≡ id) r.workers
unfolding begin
replay-AreHeld es c store r fine fresh h id a found runs =
    let begun =
      same-IsTracked (not_begun c store) (begin c store) (tick-IsSame (not_begun c store)) (record {
        named = tt;
        held = λ id a found. record {
          keyed = (fresh id a found).0;
          held = λ runs. absurd ((fresh id a found).1 runs);
        };
      }) in
    ((replay-IsTracked es (begin c store) r fine h begun).held id a found).held runs
