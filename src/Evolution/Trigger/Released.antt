-- ===== src/Evolution/Trigger/Released.antt =====
-- The goroutines of timers that have released the lock and have not called `RunFunc` yet.
use mathlib.Core.Path.{subst}
use mathlib.Core.List.{Perm, perm_middle, append_assoc}
use mathlib.Core.List.Perm
use cloche.Base.{
  ℕ, zero, suc, String, ◌≡◌, refl, ap, ◌∙◌, sym, Bool, true, false, some, List, [], ◌∷◌,
  if◌then◌else◌, get_elem?, ◌⊎◌, ◌++◌, Option-cases, modify, Dict, arith, Bool-cases, inl, inr,
}
use cloche.Evolution.Trigger.{
  Phase, waiting, stopped, started, released, finished, Timer, stop_timer, start_timer,
  finish_timer, stop_each, stop, Trigger, run_func, run_func_of, run_func_at, arguments,
}

abbrev is_released : Phase → Bool
is_released released = true
is_released _ = false

-- With which arguments they will call it.
unfoldable pub due_calls : List Timer → List (String × String × String)
due_calls [] = []
due_calls (c ∷ cs) = if is_released c.phase then arguments c ∷ due_calls cs else due_calls cs

-- A change of a timer that is not released, and leaves it so.
IsNeutral : (Timer → Timer) → Type 0
IsNeutral f = (c : Timer) (cs : List Timer) → due_calls (f c ∷ cs) ≡ due_calls (c ∷ cs)

due_calls-modify :
    (f : Timer → Timer) (i : ℕ) (ts : List Timer)
    → IsNeutral f
    → due_calls (modify i f ts) ≡ due_calls ts
unfolding due_calls modify IsNeutral
due_calls-modify f i [] neutral = refl
due_calls-modify f zero (c ∷ cs) neutral = neutral c cs
due_calls-modify f (suc i) (c ∷ cs) neutral =
    ap (λ x. if is_released c.phase then arguments c ∷ x else x) (due_calls-modify f i cs neutral)

start_timer-IsNeutral : IsNeutral start_timer
unfolding IsNeutral start_timer due_calls
start_timer-IsNeutral c cs = ground arith

stop_timer-IsNeutral : IsNeutral stop_timer
unfolding IsNeutral stop_timer due_calls
stop_timer-IsNeutral c cs = ground arith

pub due_calls-start : (i : ℕ) (ts : List Timer) → due_calls (modify i start_timer ts) ≡ due_calls ts
due_calls-start i ts = due_calls-modify start_timer i ts start_timer-IsNeutral

pub due_calls-stop_each : (m : Dict ℕ) (ts : List Timer) → due_calls (stop_each m ts) ≡ due_calls ts
unfolding stop_each
due_calls-stop_each [] ts = refl
due_calls-stop_each ((key, i) ∷ m) ts =
    due_calls-stop_each m (modify i stop_timer ts)
    ∙ due_calls-modify stop_timer i ts stop_timer-IsNeutral

-- A goroutine that calls `RunFunc` is one of them, and is none of them afterwards.
pub due_calls-finish :
    (i : ℕ) (ts : List Timer) (c : Timer)
    → get_elem? ts i ≡ some c
    → c.phase ≡ released
    → Perm (arguments c ∷ due_calls (modify i finish_timer ts)) (due_calls ts)
unfolding due_calls modify finish_timer
due_calls-finish i [] c found due = cc
due_calls-finish zero (d ∷ ts) c found due =
    let same : d ≡ c = ground (arith, found) in
    rw (same, due) (Perm.refl (arguments c ∷ due_calls ts))
due_calls-finish (suc i) (d ∷ ts) c found due =
    let later = due_calls-finish i ts c found due in
    elim (Bool-cases (is_released d.phase)) [
      | inl also ↦ rw also (
          Perm.trans (Perm.swap (arguments d) (arguments c) (due_calls (modify i finish_timer ts)))
            (Perm.cons (arguments d) later))
      | inr other ↦ rw other later
    ]

run_func_of-cases :
    (i : ℕ) (cell : Timer) (p : Phase) (t : Trigger)
    → (run_func_of i cell p t ≡ t)
      ⊎ ((p ≡ released)
          × (run_func_of i cell p t ≡ record t {
            timers = modify i finish_timer t.timers;
            calls = arguments cell ∷ t.calls;
          }))
unfolding run_func_of
run_func_of-cases i cell released t = inr (refl, refl)
run_func_of-cases i cell waiting t = inl refl
run_func_of-cases i cell stopped t = inl refl
run_func_of-cases i cell started t = inl refl
run_func_of-cases i cell finished t = inl refl

pub run_func-cases :
    (i : ℕ) (t : Trigger)
    → (run_func i t ≡ t)
      ⊎ ((cell : Timer) × (get_elem? t.timers i ≡ some cell)
          × (cell.phase ≡ released)
          × (run_func i t ≡ record t {
            timers = modify i finish_timer t.timers;
            calls = arguments cell ∷ t.calls;
          }))
unfolding run_func run_func_at
run_func-cases i t = elim (Option-cases (get_elem? t.timers i)) [
  | inl missing ↦ inl (rw missing refl)
  | inr (cell, found) ↦ elim (run_func_of-cases i cell cell.phase t) [
    | inl same ↦ inl (rw found same)
    | inr (due, runs) ↦ inr (cell, found, due, rw found runs)
  ]
]

-- From one state of the trigger to a later one `RunFunc` was called as the goroutines do that had
-- released the lock in the first: those calls and the ones that are still due are the calls that
-- were due.
abbrev pub CallsDue : Trigger → Trigger → Type 0
CallsDue t u =
    (new : List (String × String × String)) × (u.calls ≡ new ++ t.calls)
    × Perm (new ++ due_calls u.timers) (due_calls t.timers)

pub CallsDue-refl : (t : Trigger) → CallsDue t t
CallsDue-refl t = ([], refl, Perm.refl (due_calls t.timers))

pub CallsDue-same :
    (t u v : Trigger)
    → u.calls ≡ t.calls
    → due_calls u.timers ≡ due_calls t.timers
    → CallsDue u v
    → CallsDue t v
CallsDue-same t u v calls due (new, e, p) =
    (new, e ∙ ap (λ x. new ++ x) calls, subst (Perm (new ++ due_calls v.timers)) due p)

pub CallsDue-finish :
    (i : ℕ) (cell : Timer) (t v : Trigger)
    → get_elem? t.timers i ≡ some cell
    → cell.phase ≡ released
    → CallsDue
        (record t { timers = modify i finish_timer t.timers; calls = arguments cell ∷ t.calls })
        v
    → CallsDue t v
CallsDue-finish i cell t v found due (new, e, p) =
    let one = arguments cell in
    (
      new ++ one ∷ [],
      e ∙ sym (append_assoc new (one ∷ []) t.calls),
      subst (λ x. Perm x (due_calls t.timers))
          (sym (append_assoc new (one ∷ []) (due_calls v.timers)))
          (Perm.trans (perm_middle new (due_calls v.timers))
            (Perm.trans (Perm.cons one p) (due_calls-finish i t.timers cell found due))),
    )

pub CallsDue-stop : (t v : Trigger) → CallsDue (stop t) v → CallsDue t v
unfolding stop
CallsDue-stop t v = CallsDue-same t (stop t) v refl (due_calls-stop_each t.pending t.timers)
