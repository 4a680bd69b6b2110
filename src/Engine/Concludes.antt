-- ===== src/Engine/Concludes.antt =====
-- The end of a run all of whose goroutines have reported.
use cloche.Base.{
  ℕ, zero, suc, ◌+◌, ◌<◌, String, ◌≡◌, refl, sym, ap, ◌∙◌, ◌⊎◌, inl, inr, Option, none, some, List,
  [], ◌∷◌, ◌==◌, if◌then◌else◌, ltb, All, length, arith, eq_iff, Bool-cases,
}
use cloche.Workflow.{Workflow}
use cloche.Run.{RunState, succeeded, cancelled, complete}
use cloche.Run.Steps.{count}
use cloche.Engine.{Engine, Loop, Flight, replies, executes, RunError, workflow_cancelled}
use cloche.Engine.Events.{Reply, end_run, result_of, take_flight, conclude}
use cloche.Engine.Invariant.{flight_name, count_flights, IsKnown, Inv}
use cloche.Engine.Returns.{EndsWell, Sound-Bounded, end_run_failed}

-- Taking a goroutine that is in flight leaves the others.
pub take_flight-some :
    (w : Workflow) (i : ℕ) (fs : List Flight)
    → i < length fs
    → All (IsKnown w) fs
    → (f : Flight) × (rest : List Flight) × (take_flight i fs ≡ some (f, rest))
      × (length fs ≡ suc (length rest))
      × ((n : String)
          → count_flights n fs ≡ (if flight_name f == n then 1 else 0) + count_flights n rest)
      × IsKnown w f
      × All (IsKnown w) rest
unfolding take_flight
take_flight-some w i [] h a = elim h [ ]
take_flight-some w zero (f ∷ fs) h a = (f, fs, refl, refl, λ n. refl, a.0, a.1)
take_flight-some w (suc i) (f ∷ fs) h a =
    let (g, rest, taken, one_less, counts, known, others) =
      take_flight-some w i fs (omega arith) a.1 in
    (g, f ∷ rest, rw taken, omega arith, λ n. omega (arith, counts n), known, (a.0, others))

pub result_of-name : (f : Flight) (r : Reply) → (result_of f r).step_name ≡ flight_name f
unfolding result_of
result_of-name (replies name result) r = refl
result_of-name (executes step t) r = refl

no_active : (xs : List String) → ((n : String) → count (λ a. a == n) xs ≡ 0) → xs ≡ []
no_active [] h = refl
no_active (x ∷ xs) h = absurd (ground (arith, h x, eq_iff x x))

no_flights : (fs : List Flight) → 0 ≡ length fs → fs ≡ []
no_flights [] h = refl
no_flights (f ∷ fs) h = absurd (omega arith)

-- The end of a run whose goroutines have all been received.
idle_end :
    (e : Engine) (w : Workflow) (k now : ℕ) (state : RunState) (x : Option RunError) (s : Loop)
    → Inv e w k s
    → s.active_count ≡ 0
    → (((state ≡ succeeded) × (x ≡ none)) ⊎ ((state ≡ cancelled) × (x ≡ some workflow_cancelled)))
    → EndsWell e (end_run now state x s)
unfolding end_run complete
idle_end e w k now state x s h idle v =
    let gone = no_flights s.in_flight (sym idle ∙ h.counted) in
    record {
      executions = omega (arith, h.recorded, h.bounded);
      balanced = h.balanced;
      completed = refl;
      reported = (s.calls, refl, h.not_ended);
      verdict =
          inr (v, no_active s.run.active_steps (λ n. h.matched n ∙ ap (count_flights n) gone));
    }

pub conclude-EndsWell :
    (e : Engine) (w : Workflow) (k now : ℕ) (s : Loop)
    → Inv e w k s
    → s.active_count ≡ 0
    → EndsWell e (conclude now s)
unfolding conclude
conclude-EndsWell e w k now s h idle = elim (Bool-cases s.cancelled) [
  | inl c ↦ simp c (idle_end e w k now cancelled _ s h idle (inr (refl, refl)))
  | inr c ↦ elim (Bool-cases s.aborted) [
    | inl a ↦ simp (c, a) (end_run_failed e now none s (Sound-Bounded h))
    | inr a ↦ elim (Bool-cases (ltb 0 s.done_count)) [
      | inl d ↦ simp (c, a, d) (idle_end e w k now succeeded none s h idle (inl (refl, refl)))
      | inr d ↦ simp (c, a, d) (end_run_failed e now _ s (Sound-Bounded h))
    ]
  ]
]
