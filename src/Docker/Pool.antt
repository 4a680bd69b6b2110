-- ===== src/Docker/Pool.antt =====
-- internal/adapters/docker/pool.go: how a ContainerPool routes what an agent says to the session of its
-- attempt. The starts and the ends of containers are left out, and so is what waits for a container.
pub mod Names
use Prim.Native.Char.{code}
use Prim.Native.String
use Prim.Native.String.{String}
use cloche.Base.{
  ℕ, zero, suc, ◌+◌, Bool, true, false, ◌&&◌, Option, none, some, List, [], ◌∷◌, ◌==◌,
  if◌then◌else◌, leb, eqb, Dict, lookup, insert, length,
}
use cloche.Docker.Session
use cloche.Docker.Session.{ContainerSession, StepResult, connect}

-- A session with the ID of its container.
pub record PoolSession : Type 0 where
  pub container_id : String
  pub session : ContainerSession

-- `poolEntry`, with whether its ready channel is closed
pub record PoolEntry : Type 0 where
  pub sessions : List PoolSession
  pub ready : Bool

pub record ContainerPool : Type 0 where
  pub attempts : Dict PoolEntry
  pub container_attempt : Dict String
  pub pending_ready : Dict Bool

-- `strings.HasPrefix` and `len`
unfoldable pub has_prefix : String → String → Bool
has_prefix s String.[] = true
has_prefix String.[] (String.◌∷◌ c p) = false
has_prefix (String.◌∷◌ d s) (String.◌∷◌ c p) = eqb (code d) (code c) && has_prefix s p

unfoldable pub size : String → ℕ
size String.[] = 0
size (String.◌∷◌ c s) = suc (size s)

unfoldable pub attempt_of_prefix : String → Dict String → String
attempt_of_prefix container_id [] = ""
attempt_of_prefix container_id ((full_id, attempt_id) ∷ rest) =
    if has_prefix full_id container_id then attempt_id else attempt_of_prefix container_id rest

-- `resolveAttempt`
unfoldable pub resolve_attempt : String → ContainerPool → String
resolve_attempt container_id p = elim (lookup container_id p.container_attempt) [
  | some attempt_id ↦ attempt_id
  | none ↦
      if leb 12 (size container_id) then attempt_of_prefix container_id p.container_attempt else ""
]

abbrev pub entry_of : String → ContainerPool → Option PoolEntry
entry_of attempt_id p = if attempt_id == "" then none else lookup attempt_id p.attempts

unfoldable pub connect_all : List PoolSession → List PoolSession
connect_all [] = []
connect_all (s ∷ ss) = record s { session = connect s.session } ∷ connect_all ss

-- `NotifyReadyWithStream`
unfoldable pub notify_ready_with_stream : String → ContainerPool → ContainerPool
notify_ready_with_stream container_id p =
    let attempt_id = resolve_attempt container_id p in
    elim (entry_of attempt_id p) [
      | none ↦ record p { pending_ready = insert container_id true p.pending_ready }
      | some e ↦ record p {
        attempts =
            insert attempt_id (record { sessions = connect_all e.sessions; ready = true })
              p.attempts;
      }
    ]

-- `NotifyReady`
unfoldable pub notify_ready : String → ContainerPool → ContainerPool
notify_ready container_id p =
    let attempt_id = resolve_attempt container_id p in
    elim (entry_of attempt_id p) [
      | none ↦ record p { pending_ready = insert container_id false p.pending_ready }
      | some e ↦ record p { attempts = insert attempt_id (record e { ready = true }) p.attempts }
    ]

abbrev pub deliver_first : StepResult → List PoolSession → List PoolSession
deliver_first r [] = []
deliver_first r (s ∷ ss) = record s { session = Session.deliver_result r s.session } ∷ ss

-- `DeliverResult`
unfoldable pub deliver_result : String → StepResult → ContainerPool → ContainerPool
deliver_result container_id r p =
    let attempt_id = resolve_attempt container_id p in
    elim (entry_of attempt_id p) [
      | none ↦ p
      | some e ↦ record p {
        attempts =
            insert attempt_id (record e { sessions = deliver_first r e.sessions }) p.attempts;
      }
    ]

-- the first session whose container has the ID
unfoldable pub fail_session : String → List PoolSession → List PoolSession
fail_session container_id [] = []
fail_session container_id (s ∷ ss) =
    if s.container_id == container_id
    then record s { session = Session.fail_all_pending s.session } ∷ ss
    else s ∷ fail_session container_id ss

-- `FailPendingRequests`
unfoldable pub fail_pending_requests : String → ContainerPool → ContainerPool
fail_pending_requests container_id p =
    let attempt_id = resolve_attempt container_id p in
    elim (entry_of attempt_id p) [
      | none ↦ p
      | some e ↦ record p {
        attempts =
            insert attempt_id (record e { sessions = fail_session container_id e.sessions })
              p.attempts;
      }
    ]

-- `GetSession`
unfoldable pub get_session : String → ContainerPool → Option PoolSession
get_session attempt_id p = elim (lookup attempt_id p.attempts) [
  | none ↦ none
  | some e ↦ elim e.sessions [ [] ↦ none | s ∷ ss ↦ some s ]
]
