-- ===== src/Docker/Session.antt =====
-- internal/adapters/docker/pool.go: the requests of a ContainerSession. The channel of a request is an
-- index into `channels`; each operation holds the session's mutex, or is one round of sends behind it.
pub mod Once
use cloche.Base.{
  ℕ, zero, suc, ◌+◌, String, Bool, true, false, Option, none, some, List, [], ◌∷◌, ◌++◌,
  if◌then◌else◌, ltb, Dict, lookup, insert, delete, length, get_elem?, modify,
}

-- `pb.StepResult`, with the fields that are routed and read
pub record StepResult : Type 0 where
  pub request_id : String
  pub result : String

-- What is in the buffer of a request's channel, and what `ExecuteStep` took from it.
pub record Channel : Type 0 where
  pub buffer : List StepResult
  pub taken : List StepResult

pub record ContainerSession : Type 0 where
  pub connected : Bool
  pub pending : Dict ℕ
  pub channels : List Channel

abbrev pub new_session : ContainerSession
new_session = record { connected = false; pending = []; channels = [] }

-- A send into the buffer of one result, or nothing where that is full.
abbrev pub put : StepResult → Channel → Channel
put r ch = if ltb (length ch.buffer) 1 then record ch { buffer = ch.buffer ++ r ∷ [] } else ch

-- `ExecuteStep` up to the wait, with the request ID that it draws and whether the message was sent; where it
-- was not, the deferred `delete` runs at once
unfoldable pub begin_step : String → Bool → ContainerSession → ContainerSession
begin_step request_id sent s =
    let waits = record s {
      pending = insert request_id (length s.channels) s.pending;
      channels = s.channels ++ record { buffer = []; taken = [] } ∷ [];
    } in
    if s.connected
    then if sent then waits else record waits { pending = delete request_id waits.pending }
    else record waits { pending = delete request_id waits.pending }

abbrev pub take_result : Channel → Channel
take_result ch = record { buffer = []; taken = ch.taken ++ ch.buffer }

-- `ExecuteStep` behind the wait: with the result, if there is one, or because its context has ended
unfoldable pub end_step : String → ℕ → ContainerSession → ContainerSession
end_step request_id a s = record s {
  pending = delete request_id s.pending;
  channels = modify a take_result s.channels;
}

-- `deliverResult`
unfoldable pub deliver_result : StepResult → ContainerSession → ContainerSession
deliver_result r s = elim (lookup r.request_id s.pending) [
  | none ↦ s
  | some a ↦ record s {
    pending = delete r.request_id s.pending;
    channels = modify a (put r) s.channels;
  }
]

unfoldable pub fail_each : Dict ℕ → List Channel → List Channel
fail_each [] channels = channels
fail_each ((request_id, a) ∷ pending) channels =
    fail_each pending
      (modify a (put (record { request_id = request_id; result = "fail" })) channels)

-- `failAllPending`
unfoldable pub fail_all_pending : ContainerSession → ContainerSession
fail_all_pending s = record s { pending = []; channels = fail_each s.pending s.channels }

-- `NotifyReadyWithStream` gives the session its send function
abbrev pub connect : ContainerSession → ContainerSession
connect s = record s { connected = true }

pub data Event : Type 0 where
  begins : String → Bool → Event
  ends : String → ℕ → Event
  delivers : StepResult → Event
  disconnects connects : Event

unfoldable pub step : Event → ContainerSession → ContainerSession
step (begins request_id sent) s = begin_step request_id sent s
step (ends request_id a) s = end_step request_id a s
step (delivers r) s = deliver_result r s
step disconnects s = fail_all_pending s
step connects s = connect s

unfoldable pub replay : List Event → ContainerSession → ContainerSession
replay [] s = s
replay (e ∷ es) s = replay es (step e s)
