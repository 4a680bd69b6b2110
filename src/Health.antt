-- ===== src/Health.antt =====
-- internal/domain/health.go: the health of a project, from its most recent runs.
use Prim.Native.Nat.{◌≤◌}
use cloche.Base.{
  ℕ, zero, suc, ◌+◌, ◌≡◌, refl, ◌↔◌, ◌⊎◌, inl, inr, Option, none, some, List, [], ◌∷◌, length,
  if◌then◌else◌, ltb, eqb, Any, Bool-cases, arith,
}
use cloche.Base.Int.{ℤ, pos, negsuc}
use cloche.Run.{RunState, succeeded, failed, cancelled, Run}

pub data HealthStatus : Type 0 where
  green yellow red grey blue : HealthStatus

pub record HealthResult : Type 0 where
  pub status : HealthStatus
  pub passed_runs : ℕ
  pub failed_runs : ℕ
  pub total : ℕ

pub take : ℕ → List Run → List Run
take zero rs = []
take (suc n) [] = []
take (suc n) (r ∷ rs) = r ∷ take n rs

count_run : RunState → ℕ × ℕ → ℕ × ℕ
count_run succeeded (passed, lost) = (passed + 1, lost)
count_run failed (passed, lost) = (passed, lost + 1)
count_run cancelled (passed, lost) = (passed, lost + 1)
count_run _ counts = counts

-- The loop over the window
tally : ℕ × ℕ → List Run → ℕ × ℕ
unfolding count_run
tally counts [] = counts
tally counts (r ∷ rs) = tally (count_run r.state counts) rs

status_of : ℕ × ℕ → HealthStatus
status_of (passed, lost) =
    if eqb (passed + lost) 0
    then blue
    else if eqb lost 0
    then green
    else if eqb passed 0
    then red
    else yellow

result_of : List Run → HealthResult
unfolding tally status_of
result_of window =
    let counts = tally (0, 0) window in
    record {
      status = status_of counts;
      passed_runs = counts.0;
      failed_runs = counts.1;
      total = length window;
    }

-- `CalculateHealth`; `none` is the panic of a slice with a negative bound
unfoldable pub calculate_health : List Run → ℤ → Option HealthResult
unfolding result_of take
calculate_health [] size =
    some (record { status = grey; passed_runs = 0; failed_runs = 0; total = 0 })
calculate_health (r ∷ rs) (pos n) =
    some (result_of (if ltb (length (r ∷ rs)) n then r ∷ rs else take n (r ∷ rs)))
calculate_health (r ∷ rs) (negsuc n) = none

abbrev Passed : Run → Type 0
Passed r = r.state ≡ succeeded

abbrev Lost : Run → Type 0
Lost r = (r.state ≡ failed) ⊎ (r.state ≡ cancelled)

tally-Passed :
    (passed lost : ℕ) (rs : List Run)
    → (1 ≤ (tally (passed, lost) rs).0) ↔ ((1 ≤ passed) ⊎ Any Passed rs)
unfolding tally
tally-Passed passed lost [] = ground arith
tally-Passed passed lost (r ∷ rs) = ground (
  arith,
  tally-Passed (passed + 1) lost rs,
  tally-Passed passed lost rs,
  tally-Passed passed (lost + 1) rs,
)

tally-Lost :
    (passed lost : ℕ) (rs : List Run)
    → (1 ≤ (tally (passed, lost) rs).1) ↔ ((1 ≤ lost) ⊎ Any Lost rs)
unfolding tally
tally-Lost passed lost [] = ground arith
tally-Lost passed lost (r ∷ rs) = ground (
  arith,
  tally-Lost (passed + 1) lost rs,
  tally-Lost passed lost rs,
  tally-Lost passed (lost + 1) rs,
)

-- What a status says of the window of runs.
pub Says : List Run → HealthStatus → Type 0
Says window green = Any Passed window × (Any Lost window → ⊥)
Says window red = (Any Passed window → ⊥) × Any Lost window
Says window yellow = Any Passed window × Any Lost window
Says window blue = (Any Passed window → ⊥) × (Any Lost window → ⊥)
Says window grey = ⊥

result_of-Says : (window : List Run) → Says window (result_of window).status
unfolding result_of Says
result_of-Says window = ground (arith, tally-Passed 0 0 window, tally-Lost 0 0 window)

take-all : (n : ℕ) (rs : List Run) → length rs ≤ n → take n rs ≡ rs
unfolding take
take-all zero [] h = refl
take-all zero (r ∷ rs) h = absurd (omega (arith, h))
take-all (suc n) [] h = refl
take-all (suc n) (r ∷ rs) h = cc (take-all n rs (omega (arith, h)))

-- With at least one run and a window that is not negative, the window is the given number of most recent
-- runs, or all of them where there are fewer. The health is green when one of the window succeeded and
-- none failed or was cancelled, red the other way round, yellow when there are both, blue when there is
-- neither; the total is the size of the window.
pub calculate_health_lem :
    (r : Run) (rs : List Run) (n : ℕ)
    → (x : HealthResult) × (calculate_health (r ∷ rs) (pos n) ≡ some x)
      × Says (take n (r ∷ rs)) x.status
      × (x.total ≡ length (take n (r ∷ rs)))
unfolding calculate_health
calculate_health_lem r rs n =
    let window = take n (r ∷ rs) in
    elim (Bool-cases (ltb (length (r ∷ rs)) n)) [
      | inl e ↦
          let same = take-all n (r ∷ rs) (ground (arith, e)) in
          (result_of window, ground (arith, e, same), result_of-Says window, refl)
      | inr e ↦ (result_of window, ground (arith, e), result_of-Says window, refl)
    ]
