-- ===== src/Run/Aggregate/Latest.antt =====
-- Which runs count: `latestByWorkflowName` keeps the latest run of each workflow.
use cloche.Base.{
  String, ◌≡◌, refl, ◌≢◌, inl, inr, sym, ◌∙◌, false, none, List, [], ◌∷◌, ◌++◌, ◌==◌, All, Any,
  All-map, Any-map, All-append, Any-append_left, Dict, lookup, arith, eq_iff, Bool-cases, any,
}
use cloche.Run.{succeeded, parked, Run}
use cloche.Run.Aggregate.{
  after, collect_latest, values, latest_by_workflow_name, worst, worse_state, active_status,
  or_else, aggregate, attempt_aggregate_status, state_severity,
}
use cloche.Run.Aggregate.Worst.{IsWorst, aggregate-IsWorst}
use cloche.Run.Aggregate.Covers.{
  latest_by_workflow_name-All, IsKeyed, Covers, IsNamed, collect_latest-Covers,
  collect_latest-IsKeyed, found_in_values,
}

-- No two runs of the list are of one named workflow.
abbrev pub Distinct : List Run → Type 0
Distinct [] = Unit
Distinct (r ∷ rs) = (IsNamed r → All (λ x. x.workflow_name ≢ r.workflow_name) rs) × Distinct rs

unnamed-Distinct : (u : List Run) → All (λ r. r.workflow_name ≡ "") u → Distinct u
unnamed-Distinct [] h = tt
unnamed-Distinct (r ∷ u) h = (λ named. absurd (named h.0), unnamed-Distinct u h.1)

other_names :
    (k : String) (m : Dict Run)
    → IsKeyed m
    → lookup k m ≡ none
    → All (λ r. r.workflow_name ≢ k) (values m)
unfolding lookup
other_names k [] h e = tt
other_names k ((j, r) ∷ m) h e = elim (Bool-cases (j == k)) [
  | inl a ↦ cc (rw a at e)
  | inr a ↦ (λ same. ground (arith, a, eq_iff j k, h.0, same), other_names k m h.2 (rw a at e))
]

values-Distinct :
    (m : Dict Run) (u : List Run)
    → IsKeyed m
    → All (λ r. r.workflow_name ≡ "") u
    → Distinct (values m ++ u)
values-Distinct [] u h k = unnamed-Distinct u k
values-Distinct ((j, r) ∷ m) u h k = (
  λ named.
      All-append (λ x. x.workflow_name ≢ r.workflow_name) (values m) u
        (rw h.0 (other_names j m h.2 h.1)) (All-map (λ x e same. named (sym same ∙ e)) u k),
  values-Distinct m u h.2 k,
)

-- A run of the list that is of the same workflow, and that the given one was not started after.
abbrev pub IsSuperseded : List Run → Run → Type 0
IsSuperseded rs r =
    Any (λ x. (x.workflow_name ≡ r.workflow_name) × (after r.started_at x.started_at ≡ false)) rs

Covers-IsSuperseded :
    (m : Dict Run) (u : List Run) (r : Run)
    → IsKeyed m
    → Covers m r
    → IsSuperseded (values m ++ u) r
Covers-IsSuperseded m u r keyed (x, found, late) =
    let (here, name) = found_in_values r.workflow_name m {x = x} keyed found in
    Any-append_left _ (values m) u (Any-map (λ y e. rw e (name, late)) (values m) here)

All-self : (rs : List Run) → All (λ x. Any (λ r. r ≡ x) rs) rs
All-self [] = tt
All-self (r ∷ rs) = (inl refl, All-map (λ x h. inr h) rs (All-self rs))

-- `latestByWorkflowName` returns runs of its argument; for each run of a named workflow it returns
-- one of the same workflow that the given run was not started after; and it returns at most one run
-- of a named workflow.
pub latest_by_workflow_name_lem :
    (rs : List Run)
    → All (λ r. r.workflow_name ≢ "" → IsSuperseded (latest_by_workflow_name rs) r) rs
      × Distinct (latest_by_workflow_name rs)
      × All (λ x. Any (λ r. r ≡ x) rs) (latest_by_workflow_name rs)
latest_by_workflow_name_lem rs =
    let d = collect_latest [] [] rs in
    let (keyed, unnamed) = collect_latest-IsKeyed [] [] rs tt tt in
    (
      unfold latest_by_workflow_name in
          All-map (λ r cover named. Covers-IsSuperseded d.0 d.1 r keyed (cover named)) rs
            (collect_latest-Covers [] [] rs),
      unfold latest_by_workflow_name in values-Distinct d.0 d.1 keyed unnamed,
      latest_by_workflow_name-All (λ x. Any (λ r. r ≡ x) rs) rs (All-self rs),
    )

-- The status of an attempt with a run is that of the runs left when the superseded ones are gone:
-- no such run has a state of higher priority, and some has that state, unless it is `succeeded`.
pub attempt_aggregate_status-IsWorst :
    (r : Run) (rs : List Run)
    → IsWorst (latest_by_workflow_name (r ∷ rs)) (attempt_aggregate_status (r ∷ rs))
unfolding attempt_aggregate_status
attempt_aggregate_status-IsWorst r rs = aggregate-IsWorst (latest_by_workflow_name (r ∷ rs))

worst_parked : (rs : List Run) → All (λ x. x.state ≡ parked) rs → worst succeeded rs ≡ succeeded
unfolding worst worse_state state_severity
worst_parked [] h = refl
worst_parked (r ∷ rs) h = rw h.0 (worst_parked rs h.1)

no_active_parked : (rs : List Run) → All (λ x. x.state ≡ parked) rs → active_status rs ≡ none
unfolding active_status any
no_active_parked [] h = refl
no_active_parked (r ∷ rs) h = rw h.0 (no_active_parked rs h.1)

-- An attempt all of whose runs are parked counts as succeeded.
pub attempt_aggregate_status_parked :
    (r : Run) (rs : List Run)
    → All (λ x. x.state ≡ parked) (r ∷ rs)
    → attempt_aggregate_status (r ∷ rs) ≡ succeeded
unfolding attempt_aggregate_status aggregate or_else
attempt_aggregate_status_parked r rs h =
    let left = latest_by_workflow_name-All (λ x. x.state ≡ parked) (r ∷ rs) h in
    rw (no_active_parked (latest_by_workflow_name (r ∷ rs)) left)
      (worst_parked (latest_by_workflow_name (r ∷ rs)) left)
