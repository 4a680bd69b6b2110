-- ===== src/Host/Loop/Picks/First.antt =====
-- Which task of the list is handed out.
use cloche.Base.{
  ℕ, ◌≤◌, ◌∙◌, any, Bool, true, false, not, ◌&&◌, ◌||◌, ◌≡◌, refl, ap, inl, inr, Option, none, some,
  List, [], ◌∷◌, ◌++◌, ◌==◌, lookup, All, arith, Bool-cases,
}
use mathlib.Core.Path.{fun_ext, subst}
use cloche.Host.Loop.{
  limits, Task, Loop, LoopConfig, new_phase_loop, is_open, is_assigned, unexpired, pick,
  pick_task_from_phase,
}
use cloche.Host.Loop.Picks.{Round, rounds}
use cloche.Host.Loop.Picks.Handed.{
  IsMap, is_assigned-unexpired, Handed, handed, is_free, InOrder, Agree, rounds-Agree,
}

-- What the code tests, by the map of the loop.
abbrev is_unassigned : ℕ → Loop → Task → Bool
is_unassigned now l t =
    t.id == "" || (is_open t && not (is_assigned now l.config.dedup_timeout l.dedup t.id))

is_unassigned-Agree :
    (now timeout : ℕ) (l : Loop) (hs : Handed) (t : Task)
    → Agree now timeout l hs
    → is_unassigned now l t ≡ is_free now timeout hs t
is_unassigned-Agree now timeout l hs t a = elim (Bool-cases (t.id == "")) [
  | inl sentinel ↦ rw sentinel refl
  | inr named ↦
      ap (λ x. t.id == "" || (is_open t && not x))
        (ap (λ d. is_assigned now d l.dedup t.id) a.timed ∙ a.same now t.id (omega arith) named)
]

-- The first of a list that passes a test, with what stands before it.
abbrev pub IsFirst : (Task → Bool) → List Task → Option Task → Type 0
IsFirst test tasks none = All (λ t. test t ≡ false) tasks
IsFirst test tasks (some t) =
    (before : List Task) × (behind : List Task) × (tasks ≡ before ++ t ∷ behind)
    × (test t ≡ true)
    × All (λ u. test u ≡ false) before

IsFirst-cons :
    (test : Task → Bool) (u : Task) (tasks : List Task) (found : Option Task)
    → test u ≡ false
    → IsFirst test tasks found
    → IsFirst test (u ∷ tasks) found
IsFirst-cons test u tasks none h k = (h, k)
IsFirst-cons test u tasks (some t) h (before, behind, e, on, off) =
    (u ∷ before, behind, ap (λ ts. u ∷ ts) e, on, (h, off))

pick-IsFirst :
    (now : ℕ) (l : Loop) (tasks : List Task)
    → IsMap l.dedup
    → IsFirst
        (is_unassigned now l)
        tasks
        (pick now l.config.dedup_timeout (unexpired now l.config.dedup_timeout l.dedup) tasks)
unfolding pick
pick-IsFirst now l [] h = tt
pick-IsFirst now l (u ∷ tasks) h =
    let timeout = l.config.dedup_timeout in
    let same = is_assigned-unexpired now now timeout l.dedup u.id (omega arith) h in
    elim (Bool-cases (is_unassigned now l u)) [
      | inl free ↦
          let this : pick now timeout (unexpired now timeout l.dedup) (u ∷ tasks) ≡ some u =
            ground (arith, free, same) in
          rw this ([], tasks, refl, free, tt)
      | inr taken ↦
          let later : pick now timeout (unexpired now timeout l.dedup) (u ∷ tasks)
              ≡ pick now timeout (unexpired now timeout l.dedup) tasks =
            ground (arith, taken, same) in
          rw later (IsFirst-cons (is_unassigned now l) u tasks _ taken (pick-IsFirst now l tasks h))
    ]

from_start : (rs : List Round) → All (λ r. 0 ≤ r.now) rs
from_start [] = tt
from_start (r ∷ rs) = (omega arith, from_start rs)

new_phase_loop-Agree : (c : LoopConfig) → Agree 0 (limits c).dedup_timeout (new_phase_loop c) []
unfolding new_phase_loop is_assigned lookup any
new_phase_loop-Agree c = record {
  is_map = tt;
  timed = refl;
  early = tt;
  same = λ now id le named. refl;
}

-- After whatever picks a new loop has made, while the clock does not go back, the next pick hands out
-- the first task of the list that is the sentinel, or is open and is no task that one of those picks
-- handed out less than the dedup timeout ago; none is handed out only where no task is such.
pub pick_task_from_phase-IsFirst :
    (c : LoopConfig) (rs : List Round) (tasks : List Task) (now : ℕ)
    → InOrder rs now
    → IsFirst
        (is_free now (limits c).dedup_timeout (handed rs (new_phase_loop c) []))
        tasks
        (pick_task_from_phase (some tasks) now (rounds rs (new_phase_loop c))).0
unfolding pick_task_from_phase new_phase_loop
pick_task_from_phase-IsFirst c rs tasks now order =
    let l = rounds rs (new_phase_loop c) in
    let timeout = (limits c).dedup_timeout in
    let hs = handed rs (new_phase_loop c) [] in
    let a : Agree now timeout l hs =
      rounds-Agree rs 0 now timeout (new_phase_loop c) [] (omega arith) (from_start rs) order
        (new_phase_loop-Agree c) in
    subst (λ test. IsFirst test tasks (pick_task_from_phase (some tasks) now l).0)
      (fun_ext λ t. is_unassigned-Agree now timeout l hs t a) (pick-IsFirst now l tasks a.is_map)
