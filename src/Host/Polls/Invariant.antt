-- ===== src/Host/Polls/Invariant.antt =====
-- Each session has one result to give: it is registered, or its failure is still to be sent, or it
-- has been sent.
use Prim.Native.Nat.{◌≤◌}
use cloche.Base.{
  ℕ, zero, suc, ◌+◌, String, ◌≡◌, refl, inl, inr, some, List, [], ◌∷◌, ◌++◌, if◌then◌else◌, ltb,
  eqb, keys_to, keys_to-insert, keys_to-delete, keys_to-delete_found, Dict, lookup, length, modify,
  length-modify, measure_at, measure_at-append, measure_at-modify, length-append, take_at, arith,
  Option-cases,
}
use cloche.Host.Polls.{
  start_flight, postpone, new_session, session_key, Session, Invocation, Coordinator, Step,
  registers, unregisters, scans, sends_fail, triggers, returns, Reply, register, unregister,
  cancel_invocation, clear_flight, fail_overdue, visit, visit_at, scan_key, scan_keys, scan,
  deliver, send_fail, trigger_poll, settle_poll, return_to, return_poll, step, steps,
  new_poll_coordinator,
}

-- How often an address is awaited in a list, and how many keys lead to it.
abbrev pub count_of : ℕ → List ℕ → ℕ
count_of a [] = 0
count_of a (b ∷ bs) = (if eqb b a then 1 else 0) + count_of a bs

abbrev pub sent : Session → ℕ
sent s = length s.delivered

-- What a session has given or has still to give.
abbrev pub load : ℕ → Coordinator → ℕ
load a c = measure_at sent a c.heap + count_of a c.to_fail + keys_to a c.sessions

abbrev pub room : ℕ → Coordinator → ℕ
room a c = if ltb a (length c.heap) then 1 else 0

unfoldable pub Once : Coordinator → Type 0
Once c = (a : ℕ) → load a c ≤ room a c

count_of-append : (a : ℕ) (xs ys : List ℕ) → count_of a (xs ++ ys) ≡ count_of a xs + count_of a ys
count_of-append a [] ys = omega arith
count_of-append a (x ∷ xs) ys = omega (arith, count_of-append a xs ys)

pub count_of-take_at :
    (a b n : ℕ) (xs ys : List ℕ)
    → take_at n xs ≡ some (b, ys)
    → count_of a ys + (if eqb b a then 1 else 0) ≤ count_of a xs
unfolding take_at
count_of-take_at a b n [] ys h = cc
count_of-take_at a b zero (x ∷ xs) ys h = ground arith
count_of-take_at a b (suc n) (x ∷ xs) ys h = elim (Option-cases (take_at n xs)) [
  | inl e ↦ ground (arith, e, h)
  | inr ((y, zs), e) ↦ ground (arith, e, h, count_of-take_at a b n xs zs)
]

register-Once :
    (run_id step_name : String) (interval now : ℕ) (c : Coordinator)
    → Once c
    → Once (register run_id step_name interval now c)
unfolding Once register
register-Once run_id step_name interval now c h a =
    let s = new_session run_id step_name interval now in
    ground (
      arith,
      h a,
      measure_at-append sent a c.heap s,
      length-append c.heap (s ∷ []),
      keys_to-insert a (length c.heap) (session_key run_id step_name) c.sessions,
    )

-- A cancellation changes invocations alone.
cancel_same :
    (b : ℕ) (c : Coordinator)
    → ((cancel_invocation b c).heap ≡ c.heap)
      × ((cancel_invocation b c).sessions ≡ c.sessions)
      × ((cancel_invocation b c).to_fail ≡ c.to_fail)
unfolding cancel_invocation
cancel_same b c = ground arith

-- A session that gives nothing is changed, or one that gives its result.
measure_at-quiet :
    (a b : ℕ) (f : Session → Session) (heap : List Session)
    → ((s : Session) → (f s).delivered ≡ s.delivered)
    → measure_at sent a (modify b f heap) ≤ measure_at sent a heap
measure_at-quiet a b f heap same =
    ground (arith, measure_at-modify sent 0 b a f heap (λ s. ground (arith, same s)))

measure_at-deliver :
    (a b : ℕ) (result : String) (f : Session → Session) (heap : List Session)
    → ((s : Session) → (f s).delivered ≡ s.delivered)
    → measure_at sent a (modify b (λ s. deliver result (f s)) heap)
      ≤ measure_at sent a heap + (if eqb b a then 1 else 0)
measure_at-deliver a b result f heap same =
    measure_at-modify sent 1 b a (λ s. deliver result (f s)) heap
      (λ s. ground (arith, same s, length-append (f s).delivered (result ∷ [])))

unregister-Once :
    (run_id step_name : String) (c : Coordinator) → Once c → Once (unregister run_id step_name c)
unfolding Once unregister
unregister-Once run_id step_name c h a =
    grind (arith, h a, cancel_same, keys_to-delete a (session_key run_id step_name) c.sessions)

fail_overdue-Once :
    (key : String) (b : ℕ) (c : Coordinator)
    → lookup key c.sessions ≡ some b
    → Once c
    → Once (fail_overdue key b c)
unfolding Once fail_overdue
fail_overdue-Once key b c found h a =
    let (heap, sessions, to_fail) = cancel_same b c in
    rw (heap, sessions, to_fail)
      (ground (
        arith,
        h a,
        measure_at-quiet a b clear_flight c.heap (λ s. refl),
        length-modify b clear_flight c.heap,
        count_of-append a c.to_fail (b ∷ []),
        keys_to-delete_found a b key c.sessions found,
      ))

-- The lists of triggers and of invocations do not count.
others-Once :
    (c : Coordinator) (invocations : List Invocation) (to_trigger : List ℕ)
    → Once c
    → Once (record c { invocations = invocations; to_trigger = to_trigger })
unfolding Once
others-Once c invocations to_trigger h = h

visit-Once :
    (now : ℕ) (key : String) (b : ℕ) (s : Session) (c : Coordinator)
    → lookup key c.sessions ≡ some b
    → Once c
    → Once (visit now key b s c)
unfolding visit
visit-Once now key b s c found h = ground (
  arith,
  fail_overdue-Once key b c found h,
  others-Once c c.invocations (c.to_trigger ++ b ∷ []) h,
)

scan_key-Once : (now : ℕ) (key : String) (c : Coordinator) → Once c → Once (scan_key now key c)
unfolding scan_key visit_at
scan_key-Once now key c h = grind (arith, visit-Once now key)

scan_keys-Once : (now : ℕ) (m : Dict ℕ) (c : Coordinator) → Once c → Once (scan_keys now m c)
unfolding scan_keys
scan_keys-Once now [] c h = h
scan_keys-Once now ((key, b) ∷ m) c h =
    scan_keys-Once now m (scan_key now key c) (scan_key-Once now key c h)

send_fail-Once :
    (n b : ℕ) (rest : List ℕ) (c : Coordinator)
    → take_at n c.to_fail ≡ some (b, rest)
    → Once c
    → Once (send_fail b (record c { to_fail = rest }))
unfolding Once send_fail
send_fail-Once n b rest c taken h a = ground (
  arith,
  h a,
  count_of-take_at a b n c.to_fail rest taken,
  length-modify b (deliver "fail") c.heap,
  measure_at-deliver a b "fail" (λ s. s) c.heap (λ s. refl),
)

trigger_poll-Once : (now b : ℕ) (c : Coordinator) → Once c → Once (trigger_poll now b c)
unfolding Once trigger_poll
trigger_poll-Once now b c h a =
    let f = start_flight now (length c.invocations) in
    ground (arith, h a, measure_at-quiet a b f c.heap (λ s. refl), length-modify b f c.heap)

settle_poll-Once :
    (now : ℕ) (key : String) (b : ℕ) (result : String) (i : Invocation) (c : Coordinator)
    → lookup key c.sessions ≡ some b
    → Once c
    → Once (settle_poll now key b result i c)
unfolding Once settle_poll
settle_poll-Once now key b result i c found h a = ground (
  arith,
  h a,
  keys_to-delete_found a b key c.sessions found,
  measure_at-quiet a b (λ s. postpone now (clear_flight s)) c.heap (λ s. refl),
  measure_at-deliver a b result clear_flight c.heap (λ s. refl),
  length-modify b (λ s. postpone now (clear_flight s)) c.heap,
  length-modify b (λ s. deliver result (clear_flight s)) c.heap,
)

cleared-Once :
    (b : ℕ) (c : Coordinator) → Once c → Once (record c { heap = modify b clear_flight c.heap })
unfolding Once
cleared-Once b c h a = ground (
  arith,
  h a,
  measure_at-quiet a b clear_flight c.heap (λ s. refl),
  length-modify b clear_flight c.heap,
)

return_to-Once :
    (now : ℕ) (reply : Reply) (i : Invocation) (c : Coordinator)
    → Once c
    → Once (return_to now reply i c)
unfolding return_to
return_to-Once now reply i c h =
    grind (arith, settle_poll-Once now (session_key i.run_id i.step_name), cleared-Once)

return_poll-Once :
    (now n : ℕ) (reply : Reply) (c : Coordinator) → Once c → Once (return_poll now n reply c)
unfolding return_poll
return_poll-Once now n reply c h = grind (arith, return_to-Once now reply, others-Once)

pub step-Once : (s : Step) (c : Coordinator) → Once c → Once (step s c)
unfolding step
step-Once (registers run_id step_name interval now) c h =
    register-Once run_id step_name interval now c h
step-Once (unregisters run_id step_name) c h = unregister-Once run_id step_name c h
step-Once (scans now) c h = unfold scan in scan_keys-Once now c.sessions c h
step-Once (sends_fail n) c h = grind (arith, send_fail-Once n)
step-Once (triggers n now) c h = grind (arith, trigger_poll-Once now, others-Once)
step-Once (returns now n reply) c h = return_poll-Once now n reply c h

steps-Once : (ss : List Step) (c : Coordinator) → Once c → Once (steps ss c)
unfolding steps
steps-Once [] c h = h
steps-Once (s ∷ ss) c h = steps-Once ss (step s c) (step-Once s c h)

pub reached-Once : (ss : List Step) → Once (steps ss new_poll_coordinator)
unfolding Once
reached-Once ss = steps-Once ss new_poll_coordinator (λ a. omega arith)
