-- ===== src/Evolution/Trigger/Callbacks.antt =====
-- What the goroutine of a timer leaves of the invariant of the trigger.
use mathlib.Core.Path.{subst}
use cloche.Evolution.Trigger.Released.{run_func-cases}
use cloche.Base.{
  modify, ℕ, String, ◌≡◌, refl, ap, sym, ◌∙◌, inl, inr, Option, none, some, List, ◌∷◌, ◌==◌,
  get_elem?, lookup, lookup-delete, arith, eq_iff, Bool-cases,
}
use cloche.Evolution.Trigger.{
  released, release_timer, run_func, arguments, Phase, waiting, stopped, started, finished, Timer,
  Trigger, finish_timer, callback, callback_of, callback_at,
}
use cloche.Evolution.Trigger.Timers.{After, After-modify}
use cloche.Evolution.Trigger.Mapped.{AreMapped, IsBegun}

-- A goroutine that was not started leaves nothing behind.
not_begun :
    (i : ℕ) (cell : Timer) (t : Trigger)
    → get_elem? t.timers i ≡ some cell
    → (cell.phase ≡ started → ⊥)
    → IsBegun i t
    → AreMapped t
not_begun i cell t found idle h = record {
  mapped = h.mapped;
  settled = λ j c found' begun.
      let e = (h.begun j c found' begun).0 in
      let same = sym found ∙ ap (get_elem? t.timers) e ∙ found' in
      idle (ground (arith, same, ap (λ (x : Option Timer). x) same));
}

callback_of-AreMapped :
    (i : ℕ) (cell : Timer) (p : Phase) (t : Trigger)
    → get_elem? t.timers i ≡ some cell
    → p ≡ cell.phase
    → IsBegun i t
    → AreMapped (callback_of i cell p t)
unfolding callback_of After release_timer
callback_of-AreMapped i cell started t found same h =
    let entry = (h.begun i cell found (sym same)).1 in
    record {
      mapped = λ j c found' waits. elim (After-modify i j release_timer t.timers c found') [
        | inl (e, (c', found'', e')) ↦ absurd (cc (ap (λ (x : Timer). x.phase) e', waits))
        | inr (differs, found'') ↦
            let before = h.mapped j c found'' waits in
            lookup-delete cell.key c.key t.pending ∙ elim (Bool-cases (cell.key == c.key)) [
              | inl equal ↦
                  let one = ap (λ k. lookup k t.pending) ((eq_iff cell.key c.key).0 equal) in
                  absurd (differs (ground (arith, sym entry ∙ one ∙ before)))
              | inr other ↦ rw other before
            ]
      ];
      settled = λ j c found' begun. elim (After-modify i j release_timer t.timers c found') [
        | inl (e, (c', found'', e')) ↦ cc (ap (λ (x : Timer). x.phase) e', begun)
        | inr (differs, found'') ↦ differs (h.begun j c found'' begun).0
      ];
    }
callback_of-AreMapped i cell waiting t found same h =
    not_begun i cell t found (λ begun. cc (same, begun)) h
callback_of-AreMapped i cell stopped t found same h =
    not_begun i cell t found (λ begun. cc (same, begun)) h
callback_of-AreMapped i cell released t found same h =
    not_begun i cell t found (λ begun. cc (same, begun)) h
callback_of-AreMapped i cell finished t found same h =
    not_begun i cell t found (λ begun. cc (same, begun)) h

pub callback-AreMapped : (i : ℕ) (t : Trigger) → IsBegun i t → AreMapped (callback i t)
unfolding callback callback_at
callback-AreMapped i t h = at_cell (get_elem? t.timers i) refl
  where
    at_cell : (o : Option Timer) → get_elem? t.timers i ≡ o → AreMapped (callback_at i o t)
    at_cell none missing = record {
      mapped = h.mapped;
      settled = λ j c found begun.
          cc (missing, ap (get_elem? t.timers) (h.begun j c found begun).0, found);
    }
    at_cell (some cell) found = callback_of-AreMapped i cell cell.phase t found refl h

-- A timer whose goroutine has called `RunFunc` is no other's concern.
finish-AreMapped :
    (i : ℕ) (t : Trigger) (calls : List (String × String × String))
    → AreMapped t
    → AreMapped (record t { timers = modify i finish_timer t.timers; calls = calls })
unfolding After finish_timer
finish-AreMapped i t calls h = record {
  mapped = λ j c found waits. elim (After-modify i j finish_timer t.timers c found) [
    | inl (e, (c', found', e')) ↦ absurd (cc (ap (λ (x : Timer). x.phase) e', waits))
    | inr (differs, found') ↦ h.mapped j c found' waits
  ];
  settled = λ j c found begun. elim (After-modify i j finish_timer t.timers c found) [
    | inl (e, (c', found', e')) ↦ cc (ap (λ (x : Timer). x.phase) e', begun)
    | inr (differs, found') ↦ h.settled j c found' begun
  ];
}

pub run_func-AreMapped : (i : ℕ) (t : Trigger) → AreMapped t → AreMapped (run_func i t)
run_func-AreMapped i t h = elim (run_func-cases i t) [
  | inl same ↦ subst AreMapped (sym same) h
  | inr (cell, found, due, runs) ↦
      subst AreMapped (sym runs) (finish-AreMapped i t (arguments cell ∷ t.calls) h)
]
