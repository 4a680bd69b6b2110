-- ===== src/Dsl/Parser/Complete.antt =====
-- What every workflow that parseWorkflow returns satisfies.
use Prim.Native.Nat.{◌≤◌}
use Prim.Native.String.{String}
use cloche.Base.{
  ℕ, zero, suc, Bool, true, false, has, Option-cases, some, [], ◌∷◌, ◌==◌, ◌≡◌, refl, inl, inr,
  Dict, lookup, insert, All, length, Bool-cases, ok, arith, eq_iff,
}
use cloche.Workflow.{
  StepType, agent, script, workflow, human, unset, Location, Step, Workflow, validate_location,
}
use cloche.Dsl.Token.{Token}
use cloche.Dsl.Parser.{Parser}
use cloche.Dsl.Parser.Blocks.{parse_step, infer_type, count_kinds, config_at}
use cloche.Dsl.Parser.Fixups.{declares, add_results, with_result, with_token_limit, fixups}
use cloche.Dsl.Parser.Handled.{IsHandled, fixups-IsHandled}
use cloche.Dsl.Parser.Workflows.{
  value_of, parse_workflow_field, parse_workflow_config, field_value, config_fields, agent_item,
  collect_item, step_item, parse_item, parse_directive, items, parse_workflow, value_of, parse,
  add_workflow, workflows_from, all_at, parse_all, located,
}

-- Which of the keys prompt, run, workflow_name and poll a configuration has.
abbrev pub Configures : Bool → Bool → Bool → Bool → Dict String → Type 0
Configures prompt run workflow_name poll c =
    (has "prompt" c ≡ prompt)
    × (has "run" c ≡ run)
    × (has "workflow_name" c ≡ workflow_name)
    × (has "poll" c ≡ poll)

module _ (is_duration : String → Bool) where
  -- The type of a step says which one of the four keys it configures, and a step that polls has an
  -- interval that is a duration.
  abbrev pub IsTypeOf : StepType → Dict String → Type 0
  IsTypeOf agent c = Configures true false false false c
  IsTypeOf script c = Configures false true false false c
  IsTypeOf workflow c = Configures false false true false c
  IsTypeOf human c =
      Configures false false false true c
      × ((v : String) × (lookup "interval" c ≡ some v) × (is_duration v ≡ true))
  IsTypeOf unset c = ⊥

  unfoldable pub IsTyped : Step → Type 0
  IsTyped step = IsTypeOf step.type step.config

  infer_type-IsTypeOf :
      (step : Step) (t : StepType) → infer_type is_duration step ≡ ok t → IsTypeOf t step.config
  unfolding infer_type count_kinds config_at
  infer_type-IsTypeOf step agent h = ground arith
  infer_type-IsTypeOf step script h = ground arith
  infer_type-IsTypeOf step workflow h = ground arith
  infer_type-IsTypeOf step human h = elim (Option-cases (lookup "interval" step.config)) [
    | inl missing ↦
        let empty : config_at "interval" step.config ≡ "" = rw (missing, config_at) refl in
        absurd (ground (arith, h, empty, eq_iff (config_at "interval" step.config) ""))
    | inr (v, e) ↦ (ground (arith, e), (v, e, ground (arith, e)))
  ]
  infer_type-IsTypeOf step unset h = ground arith

  parse_step_infers :
      (n : ℕ) (p q : Parser) (step : Step)
      → parse_step is_duration n p ≡ ok (step, q)
      → infer_type is_duration step ≡ ok step.type
  unfolding parse_step infer_type
  parse_step_infers n p q step h = ground arith

  unfoldable pub IsParsed : Dict Step → Type 0
  IsParsed steps = All (λ e. ((e.1).name ≡ e.0) × IsTyped e.1) steps

  parse_step-IsTyped :
      (n : ℕ) (p q : Parser) (step : Step)
      → parse_step is_duration n p ≡ ok (step, q)
      → IsTyped step
  unfolding IsTyped
  parse_step-IsTyped n p q step h =
      infer_type-IsTypeOf step step.type (parse_step_infers n p q step h)

  insert-IsParsed :
      (step : Step) (steps : Dict Step)
      → IsTyped step
      → IsParsed steps
      → IsParsed (insert step.name step steps)
  unfolding insert IsParsed
  insert-IsParsed step [] h k = ((refl, h), tt)
  insert-IsParsed step ((j, s) ∷ steps) h (k, ks) = elim (Bool-cases (j == step.name)) [
    | inl e ↦ rw e ((refl, h), ks)
    | inr e ↦ rw e (k, insert-IsParsed step steps h ks)
  ]

  -- The parsers of the other parts of a workflow leave its steps as they are.
  field_value-steps :
      (n : ℕ) (key : Token) (w w' : Workflow) (p q : Parser)
      → field_value n key w p ≡ ok (w', q)
      → w'.steps ≡ w.steps
  unfolding field_value
  field_value-steps n key w w' p q h = ground arith

  parse_workflow_field-steps :
      (n : ℕ) (w w' : Workflow) (p q : Parser)
      → parse_workflow_field n w p ≡ ok (w', q)
      → w'.steps ≡ w.steps
  unfolding parse_workflow_field
  parse_workflow_field-steps n w w' p q h = grind (arith, field_value-steps)

  config_fields-steps :
      (n : ℕ) (prefix : String) (w w' : Workflow) (p q : Parser)
      → config_fields n prefix w p ≡ ok (w', q)
      → w'.steps ≡ w.steps
  unfolding config_fields
  config_fields-steps zero prefix w w' p q h = cc
  config_fields-steps (suc n) prefix w w' p q h = grind (arith, config_fields-steps n prefix)

  located-steps : (prefix : String) (w : Workflow) → (located prefix w).steps ≡ w.steps
  unfolding located
  located-steps prefix w = ground arith

  parse_workflow_config-steps :
      (n : ℕ) (w w' : Workflow) (p q : Parser)
      → parse_workflow_config n w p ≡ ok (w', q)
      → w'.steps ≡ w.steps
  unfolding parse_workflow_config
  parse_workflow_config-steps n w w' p q h = grind (arith, config_fields-steps n, located-steps)

  parse_directive-steps :
      (n : ℕ) (w w' : Workflow) (p q : Parser)
      → parse_directive n w p ≡ ok (w', q)
      → w'.steps ≡ w.steps
  unfolding parse_directive
  parse_directive-steps n w w' p q h =
      grind (arith, parse_workflow_field-steps n w w' p q, parse_workflow_config-steps n w w' p q)

  agent_item-steps :
      (n : ℕ) (w w' : Workflow) (p q : Parser) → agent_item n w p ≡ ok (w', q) → w'.steps ≡ w.steps
  unfolding agent_item
  agent_item-steps n w w' p q h = ground arith

  collect_item-steps :
      (n : ℕ) (w w' : Workflow) (p q : Parser)
      → collect_item n w p ≡ ok (w', q)
      → w'.steps ≡ w.steps
  unfolding collect_item
  collect_item-steps n w w' p q h = ground arith

  step_item-IsParsed :
      (n : ℕ) (w w' : Workflow) (p q : Parser)
      → step_item is_duration n w p ≡ ok (w', q)
      → IsParsed w.steps
      → IsParsed w'.steps
  unfolding step_item
  step_item-IsParsed n w w' p q h k = grind (arith, parse_step-IsTyped n, insert-IsParsed)

  parse_item-IsParsed :
      (n : ℕ) (w w' : Workflow) (p q : Parser)
      → parse_item is_duration n w p ≡ ok (w', q)
      → IsParsed w.steps
      → IsParsed w'.steps
  unfolding parse_item
  parse_item-IsParsed n w w' p q h k = ground (
    arith,
    step_item-IsParsed n w w' p q,
    agent_item-steps n w w' p q,
    collect_item-steps n w w' p q,
    parse_directive-steps n w w' p q,
  )

  items-IsParsed :
      (n : ℕ) (w w' : Workflow) (p q : Parser)
      → items is_duration n w p ≡ ok (w', q)
      → IsParsed w.steps
      → IsParsed w'.steps
  unfolding items
  items-IsParsed zero w w' p q h k = cc
  items-IsParsed (suc n) w w' p q h k = grind (arith, items-IsParsed n, parse_item-IsParsed n)

  add_results-IsParsed :
      (result : String) (steps : Dict Step) → IsParsed steps → IsParsed (add_results result steps)
  unfolding IsParsed IsTyped add_results
  add_results-IsParsed result [] h = tt
  add_results-IsParsed result ((k, step) ∷ steps) ((named, typed), h) =
      elim (Bool-cases (declares result step.results)) [
        | inl e ↦ rw e ((named, typed), add_results-IsParsed result steps h)
        | inr e ↦ rw e ((named, typed), add_results-IsParsed result steps h)
      ]

  -- A workflow is complete when every step stands under its own name with the type that its
  -- configuration has, declares "timeout" and "token-limit", and has a wire for each.
  unfoldable pub IsComplete : Workflow → Type 0
  IsComplete w =
      IsParsed w.steps
      × IsHandled "timeout" w.steps w.wiring
      × IsHandled "token-limit" w.steps w.wiring

  fixups-IsComplete : (w : Workflow) → IsParsed w.steps → IsComplete (fixups w)
  unfolding IsComplete fixups with_token_limit with_result
  fixups-IsComplete w h =
      let (timeout, token_limit) = fixups-IsHandled w in
      let parsed = add_results-IsParsed "timeout" w.steps h in
      (add_results-IsParsed "token-limit" _ parsed, timeout, token_limit)

  IsParsed-nil : IsParsed []
  unfolding IsParsed
  IsParsed-nil = tt

  parse_workflow-IsComplete :
      (n : ℕ) (w : Workflow) (p q : Parser)
      → parse_workflow is_duration n p ≡ ok (w, q)
      → IsComplete w
  unfolding parse_workflow validate_location
  parse_workflow-IsComplete n w p q h =
      grind (arith, IsParsed-nil, items-IsParsed n, fixups-IsComplete)

  -- In every workflow that `parse` returns, each step stands under its own name, has exactly one of the
  -- keys prompt, run, workflow_name and poll and the type for that key (agent, script, workflow or
  -- human), with an interval that is a duration if it polls, declares "timeout" and "token-limit", and a
  -- wire leaves it by each of the two.
  pub parse-IsComplete :
      (input : String) (location : Location) (w : Workflow)
      → parse is_duration input location ≡ ok w
      → IsComplete w
  unfolding parse value_of
  parse-IsComplete input location w h = grind (arith, parse_workflow-IsComplete)

  parsed-IsKeyed :
      (steps : Dict Step)
      → IsParsed steps
      → (name : String) (step : Step) → lookup name steps ≡ some step
      → step.name ≡ name
  unfolding IsParsed lookup
  parsed-IsKeyed [] h name step found = cc
  parsed-IsKeyed ((k, s) ∷ steps) ((named, typed), h) name step found =
      ground (arith, eq_iff k name, parsed-IsKeyed steps h name step)

  pub IsComplete-IsKeyed :
      (w : Workflow)
      → IsComplete w
      → (name : String) (step : Step) → lookup name w.steps ≡ some step
      → step.name ≡ name
  unfolding IsComplete
  IsComplete-IsKeyed w (parsed, _, _) = parsed-IsKeyed w.steps parsed

  -- A workflow stands in the result under its own name.
  unfoldable pub AreComplete : Dict Workflow → Type 0
  AreComplete ws = All (λ e. ((e.1).name ≡ e.0) × IsComplete e.1) ws

  insert-AreComplete :
      (w : Workflow) (ws : Dict Workflow)
      → IsComplete w
      → AreComplete ws
      → AreComplete (insert w.name w ws)
  unfolding insert AreComplete
  insert-AreComplete w [] h k = ((refl, h), tt)
  insert-AreComplete w ((j, v) ∷ ws) h (k, ks) = elim (Bool-cases (j == w.name)) [
    | inl e ↦ rw e ((refl, h), ks)
    | inr e ↦ rw e (k, insert-AreComplete w ws h ks)
  ]

  AreComplete-nil : AreComplete []
  unfolding AreComplete
  AreComplete-nil = tt

  workflows_from-AreComplete :
      (fuel n : ℕ) (ws ws' : Dict Workflow) (p q : Parser)
      → workflows_from is_duration fuel n ws p ≡ ok (ws', q)
      → AreComplete ws
      → AreComplete ws'
  unfolding workflows_from add_workflow
  workflows_from-AreComplete fuel zero ws ws' p q h k = cc
  workflows_from-AreComplete fuel (suc n) ws ws' p q h k =
      grind (
        arith,
        parse_workflow-IsComplete fuel,
        insert-AreComplete,
        workflows_from-AreComplete fuel n,
      )

  -- When a file parses whole there is at least one workflow, and each stands under its own name and is
  -- complete: its steps stand under their own names with the types that their configurations have,
  -- declare "timeout" and "token-limit", and have a wire for each of the two.
  pub parse_all-AreComplete :
      (input : String) (ws : Dict Workflow)
      → parse_all is_duration input ≡ ok ws
      → AreComplete ws × 1 ≤ length ws
  unfolding parse_all all_at
  parse_all-AreComplete input ws h = grind (arith, workflows_from-AreComplete, AreComplete-nil)
