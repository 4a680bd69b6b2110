-- ===== src/Host/Resume/Reached.antt =====
-- buildPreloadedResults: which steps the recorded results lead to.
use cloche.Base.{
  String, ◌≡◌, ◌≢◌, ◌↔◌, refl, sym, ◌∙◌, false, ◌&&◌, Option, none, some, List, [], ◌∷◌, ◌==◌,
  if◌then◌else◌, Dict, lookup, insert, lookup-insert, Any, keep_if, arith, eq_iff,
}
use cloche.Workflow.{Workflow, Wire, is_terminal, next_steps, leaves, targets, some_targets}
use cloche.Run.{StepExecution}
use cloche.Host.Resume.{next_targets, is_kept, step_results}

-- The result of the last execution of a step that has a result and no error.
abbrev pub last_result : String → List StepExecution → Option String
last_result name [] = none
last_result name (e ∷ es) = elim (last_result name es) [
  | none ↦ if e.step_name == name && is_kept e.result then some e.result else none
  | some r ↦ some r
]

or_earlier : Option String → Option String → Option String
or_earlier none earlier = earlier
or_earlier (some r) earlier = some r

lookup-step_results_from :
    (name : String) (m : Dict String) (es : List StepExecution)
    → lookup name (step_results m es) ≡ or_earlier (last_result name es) (lookup name m)
unfolding step_results or_earlier
lookup-step_results_from name m [] = refl
lookup-step_results_from name m (e ∷ es) = ground (
  arith,
  lookup-step_results_from name m es,
  lookup-step_results_from name (insert e.step_name e.result m) es,
  lookup-insert e.step_name name e.result m,
)

pub lookup-step_results :
    (name : String) (es : List StepExecution)
    → lookup name (step_results [] es) ≡ last_result name es
unfolding or_earlier lookup
lookup-step_results name es = ground (arith, lookup-step_results_from name [] es)

-- A wire from a step by a result to a target.
abbrev pub Leads : String → String → String → Wire → Type 0
Leads step result target wire =
    (wire.source ≡ step) × (wire.result ≡ result) × (wire.target ≡ target)

targets-Leads :
    (step result target : String) (ws : List Wire)
    → Any (λ t. t ≡ target) (targets (keep_if (leaves step result) ws))
      ↔ Any (Leads step result target) ws
unfolding targets keep_if leaves
targets-Leads step result target [] = (λ h. h, λ h. h)
targets-Leads step result target (w ∷ ws) =
    ground
      (arith, eq_iff w.source step, eq_iff w.result result, targets-Leads step result target ws)

pub next_targets-Leads :
    (w : Workflow) (step result target : String)
    → Any (λ t. t ≡ target) (next_targets w step result) ↔ Any (Leads step result target) w.wiring
unfolding next_targets next_steps some_targets
next_targets-Leads w step result target = ground (arith, targets-Leads step result target w.wiring)

-- The steps that the results lead to from the entry step, without passing the step to resume from.
pub data Reached (w : Workflow) (results : String → Option String) (resume_from : String)
    : String → Type 0 where
  entry :
      (name : String)
      → name ≡ w.entry_step
      → name ≢ resume_from
      → Reached w results resume_from name
  follow :
      (step result name : String)
      → Reached w results resume_from step
      → results step ≡ some result
      → Any (Leads step result name) w.wiring
      → is_terminal name ≡ false
      → name ≢ resume_from
      → Reached w results resume_from name

pub Reached-map :
    (w : Workflow) (f g : String → Option String) (resume_from : String)
    → ((name : String) → f name ≡ g name)
    → {name : String} → Reached w f resume_from name
    → Reached w g resume_from name
Reached-map w f g resume_from same (entry name first differs) = entry name first differs
Reached-map w f g resume_from same (follow step result name p e h other differs) =
    follow step result name (Reached-map w f g resume_from same p) (sym (same step) ∙ e) h other
      differs
