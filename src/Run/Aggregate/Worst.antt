-- ===== src/Run/Aggregate/Worst.antt =====
-- The aggregate of runs is the state of highest priority among them.
use Prim.Native.Nat.{ℕ, ◌≤◌}
use cloche.Base.{
  ◌≡◌, refl, ◌⊎◌, inl, inr, true, false, List, [], ◌∷◌, any, All, Any, All-map, Any-map, All-zip,
  All-intro, any-true, any-false, arith, Bool-cases,
}
use cloche.Run.{RunState, pending, running, waiting, succeeded, failed, cancelled, parked, Run}
use cloche.Run.Aggregate.{
  state_severity, worse_state, is_running, is_waiting, is_pending, worst, active_status, or_else,
  aggregate,
}

-- Running outweighs waiting, then pending, failed, cancelled and succeeded.
abbrev pub priority : RunState → ℕ
priority running = 6
priority waiting = 5
priority pending = 4
priority failed = 3
priority cancelled = 2
priority succeeded = 1
priority parked = 0

abbrev IsActive : RunState → Type 0
IsActive s = 4 ≤ priority s

severity-le-priority : (s : RunState) → state_severity s ≤ priority s
unfolding state_severity
severity-le-priority running = omega arith
severity-le-priority waiting = omega arith
severity-le-priority pending = omega arith
severity-le-priority _ = omega arith

-- With no active run the fold takes the state of highest priority.
worst-ge :
    (s : RunState) (rs : List Run)
    → (priority s ≤ 3)
    → All (λ r. priority r.state ≤ 3) rs
    → (priority s ≤ priority (worst s rs))
      × (priority (worst s rs) ≤ 3)
      × All (λ r. priority r.state ≤ priority (worst s rs)) rs
unfolding worst worse_state state_severity
worst-ge s [] h a = (omega arith, h, tt)
worst-ge s (r ∷ rs) h a =
    let step : (priority s ≤ priority (worse_state s r.state))
        × (priority r.state ≤ priority (worse_state s r.state))
        × (priority (worse_state s r.state) ≤ 3) =
      ground arith in
    let (l, u, rest) = worst-ge (worse_state s r.state) rs step.2 a.1 in
    (omega (arith, step.0), u, (omega (arith, step.1), rest))

worst-source :
    (s : RunState) (rs : List Run) → (worst s rs ≡ s) ⊎ Any (λ r. r.state ≡ worst s rs) rs
unfolding worst worse_state
worst-source s [] = inl refl
worst-source s (r ∷ rs) = ground (arith, worst-source (worse_state s r.state) rs)

priority-le : (s : RunState) → priority s ≤ 6
priority-le running = omega arith
priority-le _ = omega arith

not_running : (s : RunState) → is_running s ≡ false → priority s ≤ 5
not_running s h = ground arith

not_waiting : (s : RunState) → is_waiting s ≡ false → priority s ≤ 5 → priority s ≤ 4
not_waiting s h k = ground arith

not_pending : (s : RunState) → is_pending s ≡ false → priority s ≤ 4 → priority s ≤ 3
not_pending s h k = ground arith

running_iff : (s : RunState) → is_running s ≡ true → s ≡ running
running_iff s h = ground arith

waiting_iff : (s : RunState) → is_waiting s ≡ true → s ≡ waiting
waiting_iff s h = ground arith

pending_iff : (s : RunState) → is_pending s ≡ true → s ≡ pending
pending_iff s h = ground arith

abbrev pub IsWorst : List Run → RunState → Type 0
IsWorst rs s =
    All (λ (r : Run). priority r.state ≤ priority s) rs
    × ((s ≡ succeeded) ⊎ Any (λ (r : Run). r.state ≡ s) rs)

aggregate_terminal :
    (rs : List Run) → All (λ (r : Run). priority r.state ≤ 3) rs → IsWorst rs (worst succeeded rs)
aggregate_terminal rs h = ((worst-ge succeeded rs (omega arith) h).2, worst-source succeeded rs)

-- Behind the removal of superseded runs: no run has a higher priority than the aggregate, and the
-- aggregate is the state of some run, or it is `succeeded`.
pub aggregate-IsWorst : (rs : List Run) → IsWorst rs (aggregate rs)
unfolding aggregate active_status or_else
aggregate-IsWorst rs = elim (Bool-cases (any (λ r. is_running r.state) rs)) [
  | inl h ↦ rw h (
    All-intro (λ r. priority-le r.state) rs,
    inr (Any-map (λ r. running_iff r.state) rs (any-true _ rs h)),
  )
  | inr a ↦
      let below = All-map (λ (r : Run). not_running r.state) rs (any-false _ rs a) in
      elim (Bool-cases (any (λ r. is_waiting r.state) rs)) [
        | inl h ↦ rw (a, h) (below, inr (Any-map (λ r. waiting_iff r.state) rs (any-true _ rs h)))
        | inr b ↦
            let below' = All-zip (λ (r : Run). not_waiting r.state) rs (any-false _ rs b) below in
            elim (Bool-cases (any (λ r. is_pending r.state) rs)) [
              | inl h ↦
                  rw (a, b, h)
                    (below', inr (Any-map (λ r. pending_iff r.state) rs (any-true _ rs h)))
              | inr c ↦
                  rw (a, b, c)
                    (aggregate_terminal rs
                      (All-zip (λ (r : Run). not_pending r.state) rs (any-false _ rs c) below'))
            ]
      ]
]
