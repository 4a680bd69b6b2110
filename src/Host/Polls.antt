-- ===== src/Host/Polls.antt =====
-- internal/host/poll_coordinator.go. A `*pollSession` is an address in `heap`, an invocation goroutine
-- an index into `invocations`; each operation is one critical section of the mutex, or one send
-- outside it, and a list of steps is one interleaving of them.
pub mod Invariant
pub mod Delivery
use cloche.Base.{
  ℕ, ◌+◌, ◌*◌, String, Bool, true, false, Option, none, some, List, [], ◌∷◌, ◌++◌, ◌==◌,
  if◌then◌else◌, ltb, leb, Dict, lookup, insert, delete, length, get_elem?, modify, take_at,
}
use Prim.Native.String
use Prim.Native.Nat.{◌-◌, ◌^◌}
use cloche.Base.Int.{ℤ, pos, negsuc, ltz, add64}

-- `due_at` is `lastPollAt.Add(interval)`; `delivered` is what was ever sent on `resultCh`, whose
-- buffer holds one result.
pub record Session : Type 0 where
  pub run_id : String
  pub step_name : String
  pub interval : ℕ
  pub due_at : ℕ
  pub in_flight : Bool
  pub inv_start : ℕ
  pub inv_cancel : Option ℕ
  pub delivered : List String

-- A goroutine that runs `invokeFn`, with what `invCtx.Err()` tells.
pub record Invocation : Type 0 where
  pub run_id : String
  pub step_name : String
  pub cancelled : Bool
  pub ended : Bool

-- The calls of the `HumanPollStore`.
pub data StoreCall : Type 0 where
  delete_human_poll : String → String → StoreCall
  record_poll : String → String → ℕ → StoreCall

-- `to_fail` and `to_trigger` hold what calls of `DrivePolls` still have to do outside the lock.
pub record Coordinator : Type 0 where
  pub sessions : Dict ℕ
  pub heap : List Session
  pub invocations : List Invocation
  pub to_fail : List ℕ
  pub to_trigger : List ℕ
  pub store_calls : List StoreCall

-- `NewPollCoordinator`
abbrev pub new_poll_coordinator : Coordinator
new_poll_coordinator = record {
  sessions = [];
  heap = [];
  invocations = [];
  to_fail = [];
  to_trigger = [];
  store_calls = [];
}

-- `sessionKey`
unfoldable pub session_key : String → String → String
session_key run_id step_name = String.◌++◌ run_id (String.◌++◌ ":" step_name)

-- the first poll is due at once
abbrev pub new_session : String → String → ℕ → ℕ → Session
new_session run_id step_name interval now = record {
  run_id = run_id;
  step_name = step_name;
  interval = interval;
  due_at = now;
  in_flight = false;
  inv_start = 0;
  inv_cancel = none;
  delivered = [];
}

-- `Register`
unfoldable pub register : String → String → ℕ → ℕ → Coordinator → Coordinator
register run_id step_name interval now c = record c {
  sessions = insert (session_key run_id step_name) (length c.heap) c.sessions;
  heap = c.heap ++ new_session run_id step_name interval now ∷ [];
}

abbrev cancel_of : Option Session → Option ℕ
cancel_of none = none
cancel_of (some s) = s.inv_cancel

abbrev mark_cancelled : Invocation → Invocation
mark_cancelled i = record i { cancelled = true }

-- `if s.invCancel != nil { s.invCancel() }`
unfoldable pub cancel_invocation : ℕ → Coordinator → Coordinator
cancel_invocation a c = elim (cancel_of (get_elem? c.heap a)) [
  | none ↦ c
  | some i ↦ record c { invocations = modify i mark_cancelled c.invocations }
]

abbrev remove_session : String → Coordinator → Coordinator
remove_session key c = record c { sessions = delete key c.sessions }

-- `Unregister`
unfoldable pub unregister : String → String → Coordinator → Coordinator
unregister run_id step_name c =
    let key = session_key run_id step_name in
    elim (lookup key c.sessions) [ none ↦ c | some a ↦ remove_session key (cancel_invocation a c) ]

abbrev pub clear_flight : Session → Session
clear_flight s = record s { in_flight = false; inv_cancel = none }

abbrev longest : ℕ
longest = 2 ^ 63 - 1

-- `now.Sub(start)` on times in nanoseconds, which stops at the longest duration
elapsed : ℕ → ℕ → ℤ
elapsed start now =
    if ltb now start
    then negsuc (start - now - 1)
    else pos (if ltb longest (now - start) then longest else now - start)

-- an invocation has run for more than four intervals; the product wraps round as an int64 does
unfoldable pub is_overdue : ℕ → Session → Bool
unfolding elapsed add64
is_overdue now s =
    let two = add64 (pos s.interval) (pos s.interval) in
    ltz (add64 two two) (elapsed s.inv_start now)

unfoldable pub fail_overdue : String → ℕ → Coordinator → Coordinator
fail_overdue key a c =
    let c' = cancel_invocation a c in
    record c' {
      heap = modify a clear_flight c'.heap;
      sessions = delete key c'.sessions;
      to_fail = c'.to_fail ++ a ∷ [];
    }

unfoldable pub visit : ℕ → String → ℕ → Session → Coordinator → Coordinator
visit now key a s c =
    if s.in_flight
    then (if is_overdue now s then fail_overdue key a c else c)
    else if leb s.due_at now
    then record c { to_trigger = c.to_trigger ++ a ∷ [] }
    else c

unfoldable pub visit_at : ℕ → String → ℕ → Option Session → Coordinator → Coordinator
visit_at now key a none c = c
visit_at now key a (some s) c = visit now key a s c

-- one turn of the loop over `c.sessions`
unfoldable pub scan_key : ℕ → String → Coordinator → Coordinator
scan_key now key c = elim (lookup key c.sessions) [
  | none ↦ c
  | some a ↦ visit_at now key a (get_elem? c.heap a) c
]

unfoldable pub scan_keys : ℕ → Dict ℕ → Coordinator → Coordinator
scan_keys now [] c = c
scan_keys now ((key, a) ∷ rest) c = scan_keys now rest (scan_key now key c)

-- the critical section of `DrivePolls`
unfoldable pub scan : ℕ → Coordinator → Coordinator
scan now c = scan_keys now c.sessions c

abbrev pub deliver : String → Session → Session
deliver result s = record s { delivered = s.delivered ++ result ∷ [] }

unfoldable pub delete_poll_of : Option Session → List StoreCall → List StoreCall
delete_poll_of none calls = calls
delete_poll_of (some s) calls = delete_human_poll s.run_id s.step_name ∷ calls

-- one turn of the loop over `toFail`
unfoldable pub send_fail : ℕ → Coordinator → Coordinator
send_fail a c = record c {
  heap = modify a (deliver "fail") c.heap;
  store_calls = delete_poll_of (get_elem? c.heap a) c.store_calls;
}

abbrev pub start_flight : ℕ → ℕ → Session → Session
start_flight now i s = record s { in_flight = true; inv_start = now; inv_cancel = some i }

-- `triggerPoll` up to its goroutine. It asks for the key, not for the session.
unfoldable pub trigger_poll : ℕ → ℕ → Coordinator → Coordinator
trigger_poll now a c = elim (get_elem? c.heap a) [
  | none ↦ c
  | some s ↦ elim (lookup (session_key s.run_id s.step_name) c.sessions) [
    | none ↦ c
    | some b ↦ if s.in_flight then c else record c {
      heap = modify a (start_flight now (length c.invocations)) c.heap;
      invocations =
          c.invocations
          ++ record { run_id = s.run_id; step_name = s.step_name; cancelled = false; ended = false }
            ∷ [];
    }
  ]
]

-- What `invokeFn` returns: a result, where the empty one is pending, or an error.
pub data Reply : Type 0 where
  answers : String → Reply
  fails : Reply

unfoldable pub decision : Reply → String
decision (answers result) = result
decision fails = "fail"

abbrev end_invocation : Invocation → Invocation
end_invocation i = record i { ended = true }

abbrev pub postpone : ℕ → Session → Session
postpone now s = record s { due_at = now + s.interval }

-- the decision is delivered, or the next poll waits for the interval
unfoldable pub settle_poll : ℕ → String → ℕ → String → Invocation → Coordinator → Coordinator
settle_poll now key a result i c =
    if result == ""
    then record c {
      heap = modify a (λ s. postpone now (clear_flight s)) c.heap;
      store_calls = record_poll i.run_id i.step_name now ∷ c.store_calls;
    }
    else record c {
      heap = modify a (λ s. deliver result (clear_flight s)) c.heap;
      sessions = delete key c.sessions;
      store_calls = delete_human_poll i.run_id i.step_name ∷ c.store_calls;
    }

unfoldable pub return_to : ℕ → Reply → Invocation → Coordinator → Coordinator
return_to now reply i c =
    let key = session_key i.run_id i.step_name in
    elim (lookup key c.sessions) [
      | none ↦ c
      | some a ↦
          if i.cancelled
          then record c { heap = modify a clear_flight c.heap }
          else settle_poll now key a (decision reply) i c
    ]

-- The goroutine of `triggerPoll`, from the return of `invokeFn` on; it does so once.
unfoldable pub return_poll : ℕ → ℕ → Reply → Coordinator → Coordinator
return_poll now n reply c = elim (get_elem? c.invocations n) [
  | none ↦ c
  | some i ↦
      if i.ended
      then c
      else (let c' = return_to now reply i c in
          record c' { invocations = modify n end_invocation c'.invocations })
]

-- `SessionCount`
unfoldable pub session_count : Coordinator → ℕ
session_count c = length c.sessions

pub data Step : Type 0 where
  registers : String → String → ℕ → ℕ → Step
  unregisters : String → String → Step
  scans : ℕ → Step
  sends_fail : ℕ → Step
  triggers : ℕ → ℕ → Step
  returns : ℕ → ℕ → Reply → Step

-- One step; the index of a send or a trigger picks one that some `DrivePolls` has still to do.
unfoldable pub step : Step → Coordinator → Coordinator
step (registers run_id step_name interval now) c = register run_id step_name interval now c
step (unregisters run_id step_name) c = unregister run_id step_name c
step (scans now) c = scan now c
step (sends_fail n) c = elim (take_at n c.to_fail) [
  | none ↦ c
  | some (a, rest) ↦ send_fail a (record c { to_fail = rest })
]
step (triggers n now) c = elim (take_at n c.to_trigger) [
  | none ↦ c
  | some (a, rest) ↦ trigger_poll now a (record c { to_trigger = rest })
]
step (returns now n reply) c = return_poll now n reply c

unfoldable pub steps : List Step → Coordinator → Coordinator
steps [] c = c
steps (s ∷ ss) c = steps ss (step s c)

send_fails : List ℕ → Coordinator → Coordinator
send_fails [] c = c
send_fails (a ∷ rest) c = send_fails rest (send_fail a c)

trigger_polls : ℕ → List ℕ → Coordinator → Coordinator
trigger_polls now [] c = c
trigger_polls now (a ∷ rest) c = trigger_polls now rest (trigger_poll now a c)

-- `DrivePolls`, with no other operation between its critical sections
unfoldable pub drive_polls : ℕ → Coordinator → Coordinator
unfolding scan send_fails trigger_polls send_fail trigger_poll
drive_polls now c =
    let c' = scan now (record c { to_fail = []; to_trigger = [] }) in
    let c'' = trigger_polls now c'.to_trigger (send_fails c'.to_fail c') in
    record c'' { to_fail = c.to_fail; to_trigger = c.to_trigger }
