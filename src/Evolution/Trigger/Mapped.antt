-- ===== src/Evolution/Trigger/Mapped.antt =====
-- Where no goroutine of a timer has to wait for the lock while Fire or Stop holds it, every timer
-- that waits can be stopped.
use cloche.Base.{
  ℕ, zero, suc, length-modify, String, ◌≡◌, refl, ap, sym, ◌∙◌, inl, inr, ◌⊎◌, Option, none, some,
  List, [], ◌∷◌, ◌++◌, ◌==◌, length, get_elem?, lookup, lookup-insert, arith, eq_iff, Bool-cases,
}
use cloche.Evolution.Trigger.{
  waiting, started, Timer, Trigger, stop_timer, stop_at, fire, fire_key, key_of, start_timer,
  elapse, stop,
}
use cloche.Evolution.Trigger.Timers.{
  After, After-modify, Settled, Settled-stop, Settled-stop_each, waiting-stop, waiting-stop_each,
}

-- Every timer that waits is the one that stands in the map under its key.
pub record AreMapped (t : Trigger) : Type 0 where
  pub mapped :
      (j : ℕ) (c : Timer)
      → get_elem? t.timers j ≡ some c
      → c.phase ≡ waiting
      → lookup c.key t.pending ≡ some j
  pub settled : Settled t.timers

-- No timer waits and no goroutine does.
pub record IsIdle (t : Trigger) : Type 0 where
  pub calm : (j : ℕ) (c : Timer) → get_elem? t.timers j ≡ some c → c.phase ≡ waiting → ⊥
  pub settled : Settled t.timers

pub stop-IsIdle : (t : Trigger) → AreMapped t → IsIdle (stop t)
unfolding stop
stop-IsIdle t h = record {
  calm = λ j c found waits.
      let (found', absent) = waiting-stop_each t.pending t.timers j c found waits in
      absent c.key (h.mapped j c found' waits);
  settled = Settled-stop_each t.pending t.timers h.settled;
}

stop_at-waiting :
    (o : Option ℕ) (ts : List Timer) (j : ℕ) (c : Timer)
    → get_elem? (stop_at o ts) j ≡ some c
    → c.phase ≡ waiting
    → (o ≡ some j → ⊥) × (get_elem? ts j ≡ some c)
unfolding stop_at
stop_at-waiting none ts j c found waits = (λ e. cc, found)
stop_at-waiting (some i) ts j c found waits =
    let (differs, found') = waiting-stop i j ts c found waits in
    (λ e. differs (ground arith), found')

Settled-stop_at : (o : Option ℕ) (ts : List Timer) → Settled ts → Settled (stop_at o ts)
unfolding stop_at
Settled-stop_at none ts h = h
Settled-stop_at (some i) ts h = Settled-stop i ts h

length-stop_at : (o : Option ℕ) (ts : List Timer) → length (stop_at o ts) ≡ length ts
unfolding stop_at
length-stop_at none ts = refl
length-stop_at (some i) ts = length-modify i stop_timer ts

get_elem?-append_one :
    (ts : List Timer) (new c : Timer) (j : ℕ)
    → get_elem? (ts ++ new ∷ []) j ≡ some c
    → (get_elem? ts j ≡ some c) ⊎ ((j ≡ length ts) × (c ≡ new))
get_elem?-append_one [] new c zero h = ground arith
get_elem?-append_one [] new c (suc j) h = cc
get_elem?-append_one (t ∷ ts) new c zero h = inl h
get_elem?-append_one (t ∷ ts) new c (suc j) h = ground (arith, get_elem?-append_one ts new c j h)

fire_key-AreMapped :
    (key project_dir workflow_name run_id : String) (t : Trigger)
    → AreMapped t
    → AreMapped (fire_key key project_dir workflow_name run_id t)
unfolding fire_key
fire_key-AreMapped key project_dir workflow_name run_id t h =
    let o = lookup key t.pending in
    let old = stop_at o t.timers in
    let new : Timer = record {
      key = key;
      project_dir = project_dir;
      workflow_name = workflow_name;
      run_id = run_id;
      phase = waiting;
    } in
    record {
      mapped = λ j c found waits. elim (get_elem?-append_one old new c j found) [
        | inl found' ↦
            let (differs, found'') = stop_at-waiting o t.timers j c found' waits in
            let before = h.mapped j c found'' waits in
            elim (Bool-cases (key == c.key)) [
              | inl same ↦
                  absurd
                    (differs (ap (λ k. lookup k t.pending) ((eq_iff key c.key).0 same) ∙ before))
              | inr other ↦ lookup-insert key c.key (length t.timers) t.pending ∙ ground arith
            ]
        | inr (last, e) ↦
            lookup-insert key c.key (length t.timers) t.pending
            ∙ ground
                (arith, eq_iff key c.key, ap (λ (x : Timer). x.key) e, length-stop_at o t.timers)
      ];
      settled = λ j c found begun. elim (get_elem?-append_one old new c j found) [
        | inl found' ↦ Settled-stop_at o t.timers h.settled j c found' begun
        | inr (last, e) ↦ cc (ap (λ (x : Timer). x.phase) e, begun)
      ];
    }

pub fire-AreMapped :
    (project_dir workflow_name run_id : String) (t : Trigger)
    → AreMapped t
    → AreMapped (fire project_dir workflow_name run_id t)
unfolding fire
fire-AreMapped project_dir workflow_name run_id t h =
    fire_key-AreMapped (key_of project_dir workflow_name) project_dir workflow_name run_id t h

-- One goroutine was started, that of the timer `i`.
pub record IsBegun (i : ℕ) (t : Trigger) : Type 0 where
  pub mapped :
      (j : ℕ) (c : Timer)
      → get_elem? t.timers j ≡ some c
      → c.phase ≡ waiting
      → lookup c.key t.pending ≡ some j
  pub begun :
      (j : ℕ) (c : Timer)
      → get_elem? t.timers j ≡ some c
      → c.phase ≡ started
      → (i ≡ j) × (lookup c.key t.pending ≡ some j)

pub start_timer-ne-waiting : (c : Timer) → (start_timer c).phase ≡ waiting → ⊥
unfolding start_timer
start_timer-ne-waiting c h = ground arith

pub start_timer-started :
    (c : Timer) → (start_timer c).phase ≡ started → (c.phase ≡ waiting) ⊎ (c.phase ≡ started)
unfolding start_timer
start_timer-started c h = ground arith

key-start_timer : (c : Timer) → (start_timer c).key ≡ c.key
unfolding start_timer
key-start_timer c = ground arith

pub elapse-IsBegun : (i : ℕ) (t : Trigger) → AreMapped t → IsBegun i (elapse i t)
unfolding elapse After
elapse-IsBegun i t h = record {
  mapped = λ j c found waits. elim (After-modify i j start_timer t.timers c found) [
    | inl (e, (c', found', same)) ↦
        absurd (start_timer-ne-waiting c' (ap (λ x. x.phase) (sym same) ∙ waits))
    | inr (differs, found') ↦ h.mapped j c found' waits
  ];
  begun = λ j c found begun. elim (After-modify i j start_timer t.timers c found) [
    | inl (e, (c', found', same)) ↦
        elim (start_timer-started c' (ap (λ x. x.phase) (sym same) ∙ begun)) [
          | inl waits ↦ (
            e,
            ap (λ k. lookup k t.pending) (ap (λ x. x.key) same ∙ key-start_timer c')
                ∙ h.mapped j c' found' waits,
          )
          | inr begun' ↦ absurd (h.settled j c' found' begun')
        ]
    | inr (differs, found') ↦ absurd (h.settled j c found' begun)
  ];
}
