-- ===== src/Host/Resume/Correct.antt =====
-- buildPreloadedResults: the preloaded results are those of the steps that the recorded results
-- lead to.
use cloche.Base.{String, ◌≡◌, ◌↔◌, refl, sym, ap, ◌∙◌, true, some, [], Dict, lookup, arith, eq_iff}
use mathlib.Core.Path.{subst}
use cloche.Workflow.{Workflow}
use cloche.Run.{Run}
use cloche.Host.Resume.{
  Walk, is_visited, empty_walk, walk_fuel, walk_from_entry, step_results, build_preloaded_results,
  preloaded_of,
}
use cloche.Host.Resume.Fuel.{walk_from_entry_ends}
use cloche.Host.Resume.Reached.{
  last_result, lookup-step_results, next_targets-Leads, Reached, entry, follow, Reached-map,
}
use cloche.Host.Resume.Invariant.{IsReached, IsDone, Inv, Walked, MayEnter, walk_lem}

module _ (w : Workflow) (results : Dict String) (resume_from : String) where
  Inv-empty_walk : Inv w results resume_from empty_walk
  unfolding is_visited lookup
  Inv-empty_walk = record { reached = λ name v. cc; loaded = λ name. refl }

  MayEnter-entry_step : MayEnter w results resume_from w.entry_step
  MayEnter-entry_step differs =
      entry w.entry_step refl (λ same. cc ((eq_iff w.entry_step resume_from).1 same))

  -- What is reached from the entry step is visited in the end.
  is_visited_of_Reached :
      (t : Walk)
      → Walked w results resume_from empty_walk t
      → IsDone w results resume_from w.entry_step t
      → {name : String} → IsReached w results resume_from name
      → is_visited name t ≡ true
  unfolding is_visited
  is_visited_of_Reached t walked done (entry name first differs) = ground (
    arith,
    subst (λ x. IsDone w results resume_from x t) (sym first) done,
    eq_iff name resume_from,
  )
  is_visited_of_Reached t walked done (follow step result name p e h other differs) =
      let from = is_visited_of_Reached t walked done p in
      ground (
        arith,
        walked.closed step result name refl from e ((next_targets-Leads w step result name).1 h)
            other,
        eq_iff name resume_from,
      )

  walk_from_entry_lem :
      (t : Walk)
      → walk_from_entry w results resume_from ≡ some t
      → (name result : String)
      → (lookup name t.preloaded ≡ some result)
        ↔ (lookup name results ≡ some result) × IsReached w results resume_from name
  unfolding walk_from_entry
  walk_from_entry_lem t e name result =
      let (walked, done) =
        walk_lem w results resume_from (walk_fuel results) w.entry_step empty_walk t e
          Inv-empty_walk MayEnter-entry_step in
      (
        λ h. (
          ground (arith, walked.inv.loaded name),
          walked.inv.reached name (ground (arith, walked.inv.loaded name)),
        ),
        λ (h, p). ground (arith, walked.inv.loaded name, is_visited_of_Reached t walked done p),
      )

-- For every run, workflow and step to resume from, the walk ends, and a result is preloaded for a
-- step exactly when it is the result of the last execution of that step that has a result and no
-- error, and the step is reached: it is the entry step, or a wire leads to it from a reached step by
-- that step's last result; done, abort and the step to resume from are never reached by a wire, and
-- the step to resume from is never reached as the entry step either. So a step that also lies beyond
-- the step to resume from is preloaded where another path reaches it.
pub build_preloaded_results-Reached :
    (run : Run) (w : Workflow) (resume_from : String)
    → (m : Dict String) × (build_preloaded_results run w resume_from ≡ some m)
      × ((name result : String)
          → (lookup name m ≡ some result)
            ↔ (last_result name run.step_executions ≡ some result)
              × Reached w (λ step. last_result step run.step_executions) resume_from name)
unfolding build_preloaded_results
build_preloaded_results-Reached run w resume_from =
    let es = run.step_executions in
    let results = step_results [] es in
    let (t, ends) = walk_from_entry_ends w results resume_from in
    (
      t.preloaded,
      ap preloaded_of ends,
      λ name result.
          let (to, from) = walk_from_entry_lem w results resume_from t ends name result in
          (
            λ h.
                let (e, p) = to h in
                (
                  sym (lookup-step_results name es) ∙ e,
                  Reached-map w (λ n. lookup n results) (λ n. last_result n es) resume_from
                      (λ n. lookup-step_results n es) p,
                ),
            λ (e, p). from (
              lookup-step_results name es ∙ e,
              Reached-map w (λ n. last_result n es) (λ n. lookup n results) resume_from
                  (λ n. sym (lookup-step_results n es)) p,
            ),
          ),
    )
