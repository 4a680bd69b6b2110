-- ===== src/Prompt/Commands/Results.antt =====
-- Execute: which of the agent commands decides the result of the step.
use mathlib.Core.List.{append-nil}
use cloche.Base.{
  ◌≡◌, refl, ap, sym, ◌∙◌, Bool, true, false, not, ◌||◌, List, [], ◌∷◌, ◌++◌, if◌then◌else◌, any,
  ok, arith, Bool-cases, Option-cases, inl, inr,
}
use cloche.Prompt.Text.{Text, codes}
use cloche.Prompt.Commands.{
  Tried, Chain, no_chain, is_nil, note, run_chain, conclude, step_result, commands_failed,
  run_commands, exited_zero, exited_nonzero, not_started, try_buffered, classify_result,
  extract_result, nonzero_result,
}

-- Whether a command gave a slice of output that is not nil; it may be empty.
abbrev pub has_stdout : Tried → Bool
has_stdout t = not (is_nil t.stdout)

-- A command whose output is buffered gives a slice exactly if it was started.
has_stdout-try_buffered :
    (output : Text)
    → (has_stdout (try_buffered output exited_zero) ≡ true)
      × (has_stdout (try_buffered output exited_nonzero) ≡ true)
      × (has_stdout (try_buffered output not_started) ≡ false)
unfolding try_buffered classify_result nonzero_result
has_stdout-try_buffered output =
    (ground arith, ground (arith, Option-cases (extract_result output).0), refl)

-- The variables of the loop after commands that did not decide the result.
abbrev notes : List Tried → Chain → Chain
notes [] s = s
notes (t ∷ ts) s = notes ts (note t s)

-- Where nothing ran, there is no output either.
abbrev IsQuiet : Chain → Type 0
IsQuiet s = (s.ran ≡ false → is_nil s.last_stdout ≡ true)

note-IsQuiet : (t : Tried) (s : Chain) → t.failed ≡ true → IsQuiet (note t s)
unfolding note
note-IsQuiet t s h = λ quiet. ground arith

module _ {W : Type 0} (try : Text → Text → W → Tried × W) (prompt : Text) where
  -- The commands are run one after the other, and none of them decides the result.
  pub data AllFail : List Text → W → List Tried → W → Type 0 where
    nothing : (world : W) → AllFail [] world [] world
    fails :
        (c : Text) (cs : List Text) (t : Tried) (ts : List Tried) (world world' end : W)
        → try c prompt world ≡ (t, world')
        → t.failed ≡ true
        → AllFail cs world' ts end
        → AllFail (c ∷ cs) world (t ∷ ts) end

  run_chain_fails :
      (c : Text) (cs : List Text) (s : Chain) (t : Tried) (world world' : W)
      → try c prompt world ≡ (t, world')
      → t.failed ≡ true
      → run_chain try (c ∷ cs) prompt s world ≡ run_chain try cs prompt (note t s) world'
  unfolding run_chain
  run_chain_fails c cs s t world world' e h = rw (e, h) refl

  run_chain_decides :
      (c : Text) (cs : List Text) (s : Chain) (t : Tried) (world world' : W)
      → try c prompt world ≡ (t, world')
      → t.failed ≡ false
      → run_chain try (c ∷ cs) prompt s world ≡ (note t s, world')
  unfolding run_chain
  run_chain_decides c cs s t world world' e h = rw (e, h) refl

  run_chain-append :
      (cs more : List Text) (s : Chain) (ts : List Tried) (world end : W)
      → AllFail cs world ts end
      → run_chain try (cs ++ more) prompt s world ≡ run_chain try more prompt (notes ts s) end
  run_chain-append cs more s ts world end (nothing same) = refl
  run_chain-append cs more s ts world end (fails c rest t us w w' last e h f) =
      run_chain_fails c (rest ++ more) s t w w' e h
      ∙ run_chain-append rest more (note t s) us w' last f

  ran-notes :
      (cs : List Text) (s : Chain) (ts : List Tried) (world end : W)
      → AllFail cs world ts end
      → (notes ts s).ran ≡ (s.ran || any has_stdout ts)
  unfolding any note
  ran-notes cs s ts world end (nothing same) = ground arith
  ran-notes cs s ts world end (fails c rest t us w w' last e h f) =
      ground (arith, ran-notes rest (note t s) us w' last f)

  notes_fail :
      (cs : List Text) (s : Chain) (ts : List Tried) (world end : W)
      → AllFail cs world ts end
      → s.last_failed ≡ true
      → IsQuiet s
      → ((notes ts s).last_failed ≡ true) × IsQuiet (notes ts s)
  unfolding note
  notes_fail cs s ts world end (nothing same) h q = (h, q)
  notes_fail cs s ts world end (fails c rest t us w w' last e h f) k q =
      notes_fail rest (note t s) us w' last f h (note-IsQuiet t s h)

  conclude_quiet :
      (s : Chain)
      → s.last_failed ≡ true
      → IsQuiet s
      → conclude s ≡ (if s.ran then step_result (codes "fail") else commands_failed)
  unfolding conclude
  conclude_quiet s h q = elim (Bool-cases s.ran) [
    | inl ran ↦ rw (h, ran) refl
    | inr idle ↦ rw (h, idle, q idle) refl
  ]

  conclude_decides :
      (t : Tried) (s : Chain) → t.failed ≡ false → conclude (note t s) ≡ step_result t.result
  unfolding conclude note
  conclude_decides t s h = rw h refl

  run_chain_all :
      (cs : List Text) (s : Chain) (ts : List Tried) (world end : W)
      → AllFail cs world ts end
      → run_chain try cs prompt s world ≡ (notes ts s, end)
  unfolding run_chain
  run_chain_all cs s ts world end f =
      ap (λ x. run_chain try x prompt s world) (sym (append-nil cs))
      ∙ run_chain-append cs [] s ts world end f

  conclude_all :
      (cs : List Text) (ts : List Tried) (world end : W)
      → AllFail cs world ts end
      → (cs ≡ [] → ⊥)
      → conclude (notes ts no_chain)
        ≡ (if any has_stdout ts then step_result (codes "fail") else commands_failed)
  conclude_all cs ts world end (nothing same) nonempty = absurd (nonempty refl)
  conclude_all cs ts world end (fails c rest t us w w' last e h f) nonempty =
      let (failed, quiet) =
        notes_fail rest (note t no_chain) us w' last f (unfold note in h)
          (note-IsQuiet t no_chain h) in
      conclude_quiet (notes us (note t no_chain)) failed quiet
      ∙ ap (λ b. if b then step_result (codes "fail") else commands_failed)
          (ran-notes (c ∷ rest) no_chain (t ∷ us) w last (fails c rest t us w w' last e h f))

  -- The commands are run in their order up to the first that decides the result (it exits without
  -- an error that calls for the next one); that command's result is the result of the step, and no
  -- later command is run. If there is a command and none of them decides, all are run, and the
  -- result is fail if one of them gave a slice of output that is not nil, be it an empty one; else
  -- the execution is an error.
  pub run_commands-first :
      (warned : List Text) (cs : List Text) (ts : List Tried) (world end : W)
      → AllFail cs world ts end
      → ((c : Text) (more : List Text) (t : Tried) (world' : W)
          → try c prompt end ≡ (t, world')
          → t.failed ≡ false
          → run_commands try (cs ++ c ∷ more) (ok (warned, prompt), world)
            ≡ (step_result t.result, world'))
        × ((cs ≡ [] → ⊥)
            → run_commands try cs (ok (warned, prompt), world)
              ≡ ((if any has_stdout ts then step_result (codes "fail") else commands_failed), end))
  unfolding run_commands
  run_commands-first warned cs ts world end f = (
    λ c more t world' e h.
        rw
          (run_chain-append cs (c ∷ more) no_chain ts world end f
            ∙ run_chain_decides c more (notes ts no_chain) t end world' e h)
          (ap (λ x. (x, world')) (conclude_decides t (notes ts no_chain) h)),
    λ nonempty.
        rw (run_chain_all cs no_chain ts world end f)
          (ap (λ x. (x, end)) (conclude_all cs ts world end f nonempty)),
  )
