-- ===== src/Run/Steps.antt =====
-- The list of active steps and the step executions of a run agree.
use cloche.Base.{
  ℕ, zero, suc, ◌+◌, ◌-◌, String, ◌≡◌, refl, Bool, true, false, none, some, List, [], ◌∷◌, ◌++◌,
  ◌==◌, if◌then◌else◌, any, arith, eq_iff, Bool-cases, ap, ◌∙◌, inl, inr,
}
use cloche.Run.{
  Run, StepExecution, is_zero, record_start, record_complete, record_skipped, remove_first,
  mark_last, is_open, new_run, complete_with, skip_with,
}

-- How often a step is active, and how many of its executions are open.
abbrev pub count : (String → Bool) → List String → ℕ
count p [] = 0
count p (n ∷ ns) = (if p n then 1 else 0) + count p ns

abbrev pub count_open : String → List StepExecution → ℕ
count_open name [] = 0
count_open name (e ∷ es) = (if is_open name e then 1 else 0) + count_open name es

abbrev pub IsBalanced : Run → Type 0
IsBalanced r =
    (name : String) → count (λ n. n == name) r.active_steps ≡ count_open name r.step_executions

pub count-append :
    (p : String → Bool) (xs ys : List String) → count p (xs ++ ys) ≡ count p xs + count p ys
count-append p [] ys = omega arith
count-append p (x ∷ xs) ys = omega (arith, count-append p xs ys)

count_open-append :
    (name : String) (xs ys : List StepExecution)
    → count_open name (xs ++ ys) ≡ count_open name xs + count_open name ys
count_open-append name [] ys = omega arith
count_open-append name (x ∷ xs) ys = omega (arith, count_open-append name xs ys)

pub count-remove_first :
    (name k : String) (ns : List String)
    → count (λ n. n == k) (remove_first name ns)
      ≡ count (λ n. n == k) ns - (if name == k then 1 else 0)
unfolding remove_first
count-remove_first name k [] = omega arith
count-remove_first name k (n ∷ ns) =
    ground (arith, eq_iff n name, eq_iff n k, eq_iff name k, count-remove_first name k ns)

any_open_iff :
    (name : String) (es : List StepExecution)
    → any (is_open name) es ≡ (elim (count_open name es) [ zero ↦ false | suc n ↦ true ])
unfolding any
any_open_iff name [] = refl
any_open_iff name (e ∷ es) = ground (arith, any_open_iff name es)

-- A change that closes an execution and keeps its step.
abbrev Closes : (StepExecution → StepExecution) → Type 0
Closes f =
    (e : StepExecution) → ((f e).step_name ≡ e.step_name) × (is_zero (f e).completed_at ≡ false)

count_open-mark_last :
    (name k : String) (f : StepExecution → StepExecution) (es : List StepExecution)
    → Closes f
    → count_open k (mark_last name f es) ≡ count_open k es - (if name == k then 1 else 0)
unfolding mark_last
count_open-mark_last name k f [] c = omega arith
count_open-mark_last name k f (e ∷ es) c = ground (
  arith,
  c e,
  eq_iff e.step_name name,
  eq_iff e.step_name k,
  eq_iff (f e).step_name k,
  eq_iff name k,
  any_open_iff name es,
  count_open-mark_last name k f es c,
)

pub record_start-IsBalanced :
    (now : ℕ) (name : String) (r : Run) → IsBalanced r → IsBalanced (record_start now name r)
unfolding record_start is_open
record_start-IsBalanced now name r h k = ground (
  arith,
  h k,
  count-append (λ n. n == k) r.active_steps (name ∷ []),
  count_open-append k r.step_executions (
      record {
        step_name = name;
        result = "";
        skipped = false;
        started_at = some now;
        completed_at = none;
      }
      ∷ []),
)

pub record_complete-IsBalanced :
    (now : ℕ) (name result : String) (r : Run)
    → IsBalanced r
    → IsBalanced (record_complete now name result r)
unfolding record_complete
record_complete-IsBalanced now name result r h k = ground (
  arith,
  h k,
  count-remove_first name k r.active_steps,
  count_open-mark_last name k (complete_with now result) r.step_executions (λ e. (refl, refl)),
)

pub record_skipped-IsBalanced :
    (now : ℕ) (name wire : String) (r : Run)
    → IsBalanced r
    → IsBalanced (record_skipped now name wire r)
unfolding record_skipped
record_skipped-IsBalanced now name wire r h k = ground (
  arith,
  h k,
  count-remove_first name k r.active_steps,
  count_open-mark_last name k (skip_with now wire) r.step_executions (λ e. (refl, refl)),
)

-- What the engine does to a run's steps.
pub data StepEvent : Type 0 where
  begin : ℕ → String → StepEvent
  finish : ℕ → String → String → StepEvent
  skip : ℕ → String → String → StepEvent

pub apply : StepEvent → Run → Run
apply (begin now name) r = record_start now name r
apply (finish now name result) r = record_complete now name result r
apply (skip now name wire) r = record_skipped now name wire r

pub apply_all : List StepEvent → Run → Run
apply_all [] r = r
apply_all (e ∷ es) r = apply_all es (apply e r)

apply-IsBalanced : (e : StepEvent) (r : Run) → IsBalanced r → IsBalanced (apply e r)
unfolding apply
apply-IsBalanced (begin now name) r h = record_start-IsBalanced now name r h
apply-IsBalanced (finish now name result) r h = record_complete-IsBalanced now name result r h
apply-IsBalanced (skip now name wire) r h = record_skipped-IsBalanced now name wire r h

apply_all-IsBalanced_from :
    (es : List StepEvent) (r : Run) → IsBalanced r → IsBalanced (apply_all es r)
unfolding apply_all
apply_all-IsBalanced_from [] r h = h
apply_all-IsBalanced_from (e ∷ es) r h =
    apply_all-IsBalanced_from es (apply e r) (apply-IsBalanced e r h)

-- After any sequence of starts, completions and skips on a new run, in any order and also of steps
-- that were never started, every step name stands in the active steps as often as the run has open
-- executions of it.
pub apply_all-IsBalanced :
    (id workflow : String) (es : List StepEvent) → IsBalanced (apply_all es (new_run id workflow))
apply_all-IsBalanced id workflow es =
    apply_all-IsBalanced_from es (new_run id workflow) (λ name. unfold new_run in refl)

-- The executions of the first list stand in the second at the same places, with their step names,
-- and those that are complete unchanged.
abbrev pub Extends : List StepExecution → List StepExecution → Type 0
Extends [] ys = Unit
Extends (x ∷ xs) [] = ⊥
Extends (x ∷ xs) (y ∷ ys) =
    (is_zero x.completed_at ≡ false → y ≡ x) × (y.step_name ≡ x.step_name) × Extends xs ys

Extends-refl : (xs : List StepExecution) → Extends xs xs
Extends-refl [] = tt
Extends-refl (x ∷ xs) = (λ h. refl, refl, Extends-refl xs)

Extends-trans : (xs ys zs : List StepExecution) → Extends xs ys → Extends ys zs → Extends xs zs
Extends-trans [] ys zs h k = tt
Extends-trans (x ∷ xs) [] zs h k = absurd h
Extends-trans (x ∷ xs) (y ∷ ys) [] h k = absurd k
Extends-trans (x ∷ xs) (y ∷ ys) (z ∷ zs) h k = (
  λ c. ground (arith, h.0 c, k.0, ap (λ (e : StepExecution). is_zero e.completed_at) (h.0 c)),
  k.1 ∙ h.1,
  Extends-trans xs ys zs h.2 k.2,
)

Extends-append : (xs ys : List StepExecution) → Extends xs (xs ++ ys)
Extends-append [] ys = tt
Extends-append (x ∷ xs) ys = (λ h. refl, refl, Extends-append xs ys)

Extends-mark_last :
    (name : String) (f : StepExecution → StepExecution) (es : List StepExecution)
    → Closes f
    → Extends es (mark_last name f es)
unfolding mark_last
Extends-mark_last name f [] c = tt
Extends-mark_last name f (e ∷ es) c = elim (Bool-cases (any (is_open name) es)) [
  | inl later ↦ rw later (λ h. refl, refl, Extends-mark_last name f es c)
  | inr last ↦ elim (Bool-cases (is_open name e)) [
    | inl open_here ↦
        rw (last, open_here)
          (λ h. unfold is_open in ground (arith, open_here), (c e).0, Extends-refl es)
    | inr shut ↦ rw (last, shut) (λ h. refl, refl, Extends-refl es)
  ]
]

Extends-apply : (e : StepEvent) (r : Run) → Extends r.step_executions (apply e r).step_executions
unfolding apply record_start record_complete record_skipped
Extends-apply (begin now name) r = Extends-append r.step_executions _
Extends-apply (finish now name result) r =
    Extends-mark_last name (complete_with now result) r.step_executions (λ e. (refl, refl))
Extends-apply (skip now name wire) r =
    Extends-mark_last name (skip_with now wire) r.step_executions (λ e. (refl, refl))

-- Whatever starts, completions and skips follow, no execution is dropped or moved, and one that is
-- complete keeps its result and its times.
pub Extends-apply_all :
    (es : List StepEvent) (r : Run) → Extends r.step_executions (apply_all es r).step_executions
unfolding apply_all
Extends-apply_all [] r = Extends-refl r.step_executions
Extends-apply_all (e ∷ es) r =
    Extends-trans r.step_executions (apply e r).step_executions _ (Extends-apply e r)
      (Extends-apply_all es (apply e r))
