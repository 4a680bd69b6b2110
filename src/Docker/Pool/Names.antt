-- ===== src/Docker/Pool/Names.antt =====
-- Agents name their container by its short ID: what is routed by that name, and what is not.
use Prim.Native.String
use Prim.Native.String.{String}
use Prim.Native.Nat.{◌≤◌}
use cloche.Base.{
  ◌+◌, true, false, ◌≡◌, ◌≢◌, refl, some, [], ◌∷◌, ◌==◌, lookup, insert, arith, eq_iff, eq_refl,
}
use cloche.Base.Text.{append_nil, append_cons}
use cloche.Docker.Session
use cloche.Docker.Session.{ContainerSession, StepResult}
use cloche.Docker.Pool.{
  ContainerPool, has_prefix, size, attempt_of_prefix, resolve_attempt, deliver_result, fail_session,
  fail_pending_requests, get_session,
}

has_prefix_append : (s p : String) → has_prefix (String.◌++◌ p s) p ≡ true
unfolding has_prefix
has_prefix_append s String.[] = refl
has_prefix_append s (String.◌∷◌ c p) =
    rw (append_cons c p s) (ground (arith, has_prefix_append s p))

size_append : (p s : String) → size (String.◌++◌ p s) ≡ size p + size s
unfolding size
size_append String.[] s = rw (append_nil s) (omega arith)
size_append (String.◌∷◌ c p) s = rw (append_cons c p s) (omega (arith, size_append p s))

-- A pool with one container, under its full ID.
abbrev pub one_container : String → String → ContainerSession → ContainerPool
one_container full_id attempt_id s = record {
  attempts =
      (
        attempt_id,
        record { sessions = record { container_id = full_id; session = s } ∷ []; ready = true },
      )
      ∷ [];
  container_attempt = (full_id, attempt_id) ∷ [];
  pending_ready = [];
}

-- In a pool with one container, whose agent names it by the first twelve characters or more, but
-- not all, of its ID: the results that the agent sends reach the session of its attempt, but when
-- it is cut off no pending request is failed.
pub fail_pending_requests_lem :
    (short rest attempt_id : String) (s : ContainerSession) (r : StepResult)
    → 12 ≤ size short
    → 1 ≤ size rest
    → attempt_id ≢ ""
    → let p = one_container (String.◌++◌ short rest) attempt_id s in
      (get_session attempt_id (deliver_result short r p)
        ≡ some (record {
          container_id = String.◌++◌ short rest;
          session = Session.deliver_result r s;
        }))
      × (fail_pending_requests short p ≡ p)
unfolding get_session deliver_result fail_pending_requests fail_session resolve_attempt
    attempt_of_prefix lookup insert
fail_pending_requests_lem short rest attempt_id s r long more named =
    let full = String.◌++◌ short rest in
    let other : (full == short) ≡ false =
      ground (arith, eq_iff full short, size_append short rest, more) in
    ground (
      arith,
      other,
      has_prefix_append rest short,
      eq_iff attempt_id "",
      named,
      eq_refl attempt_id,
      long,
    )
