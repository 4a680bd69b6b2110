-- ===== src/Evolution/Trigger/Timers.antt =====
-- What stopping some timers of the trigger does to the others.
use cloche.Base.{
  ℕ, String, ◌≡◌, ap, sym, ◌∙◌, inl, inr, ◌⊎◌, some, List, [], ◌∷◌, ◌==◌, eqb, get_elem?, modify,
  Dict, lookup, get_elem?-modify_same, get_elem?-modify_other, arith, Bool-cases, Option-cases,
}
use cloche.Evolution.Trigger.{waiting, started, Timer, stop_timer, stop_each}

pub stop_timer-ne-waiting : (c : Timer) → (stop_timer c).phase ≡ waiting → ⊥
unfolding stop_timer
stop_timer-ne-waiting c h = ground arith

pub stop_timer-started : (c : Timer) → (stop_timer c).phase ≡ started → c.phase ≡ started
unfolding stop_timer
stop_timer-started c h = ground arith

-- A cell after a change of one cell.
unfoldable pub After : ℕ → (Timer → Timer) → List Timer → ℕ → Timer → Type 0
After i f ts j c =
    ((i ≡ j) × ((c' : Timer) × (get_elem? ts j ≡ some c') × (c ≡ f c')))
    ⊎ ((i ≡ j → ⊥) × (get_elem? ts j ≡ some c))

pub After-modify :
    (i j : ℕ) (f : Timer → Timer) (ts : List Timer) (c : Timer)
    → get_elem? (modify i f ts) j ≡ some c
    → After i f ts j c
unfolding After
After-modify i j f ts c h = elim (Bool-cases (eqb i j)) [
  | inl same ↦
      let e : i ≡ j = ground arith in
      elim (Option-cases (get_elem? ts j)) [
        | inl missing ↦ absurd (cc (get_elem?-modify_same j f ts, missing, h, e))
        | inr (c', found) ↦ inl (e, (c', found, ground (arith, get_elem?-modify_same j f ts)))
      ]
  | inr other ↦
      let differs : i ≡ j → ⊥ = λ e. ground arith in
      inr (differs, sym (get_elem?-modify_other i j f ts differs) ∙ h)
]

-- No goroutine waits for the lock.
abbrev pub Settled : List Timer → Type 0
Settled ts = (j : ℕ) (c : Timer) → get_elem? ts j ≡ some c → c.phase ≡ started → ⊥

pub Settled-stop : (i : ℕ) (ts : List Timer) → Settled ts → Settled (modify i stop_timer ts)
unfolding After
Settled-stop i ts h j c found begun = elim (After-modify i j stop_timer ts c found) [
  | inl (e, (c', found', same)) ↦
      h j c' found' (stop_timer-started c' (ap (λ x. x.phase) (sym same) ∙ begun))
  | inr (differs, found') ↦ h j c found' begun
]

pub Settled-stop_each : (m : Dict ℕ) (ts : List Timer) → Settled ts → Settled (stop_each m ts)
unfolding stop_each
Settled-stop_each [] ts h = h
Settled-stop_each ((key, i) ∷ m) ts h =
    Settled-stop_each m (modify i stop_timer ts) (Settled-stop i ts h)

-- A timer that waits after one was stopped is another one.
pub waiting-stop :
    (i j : ℕ) (ts : List Timer) (c : Timer)
    → get_elem? (modify i stop_timer ts) j ≡ some c
    → c.phase ≡ waiting
    → (i ≡ j → ⊥) × (get_elem? ts j ≡ some c)
unfolding After
waiting-stop i j ts c found waits = elim (After-modify i j stop_timer ts c found) [
  | inl (e, (c', found', same)) ↦
      absurd (stop_timer-ne-waiting c' (ap (λ x. x.phase) (sym same) ∙ waits))
  | inr other ↦ other
]

pub waiting-stop_each :
    (m : Dict ℕ) (ts : List Timer) (j : ℕ) (c : Timer)
    → get_elem? (stop_each m ts) j ≡ some c
    → c.phase ≡ waiting
    → (get_elem? ts j ≡ some c) × ((k : String) → lookup k m ≡ some j → ⊥)
unfolding stop_each lookup
waiting-stop_each [] ts j c found waits = (found, λ k h. cc)
waiting-stop_each ((key, i) ∷ m) ts j c found waits =
    let (found', absent) = waiting-stop_each m (modify i stop_timer ts) j c found waits in
    let (differs, found'') = waiting-stop i j ts c found' waits in
    (
      found'',
      λ k h. elim (Bool-cases (key == k)) [
        | inl same ↦ differs (ground arith)
        | inr other ↦ absent k (ground arith)
      ],
    )
