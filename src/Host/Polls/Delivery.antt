-- ===== src/Host/Polls/Delivery.antt =====
-- The channels of the poll sessions under every interleaving of the coordinator's operations.
use Prim.Native.Nat.{◌≤◌}
use cloche.Base.{
  keys_to-lookup, All-measure_at, ℕ, String, ◌≡◌, ◌⊎◌, inl, inr, some, List, lookup, length,
  take_at, All, arith, measure_at,
}
use cloche.Host.Polls.{Coordinator, Step, steps, new_poll_coordinator}
use cloche.Host.Polls.Invariant.{Once, sent, reached-Once, count_of-take_at}

sent-Once : (a : ℕ) (c : Coordinator) → Once c → measure_at sent a c.heap ≤ 1
unfolding Once
sent-Once a c h = ground (arith, h a)

-- In every interleaving of registrations, cancellations, drives and invocations, at most one result is
-- ever sent to the executor of a step.
pub steps-delivers_once :
    (ss : List Step) → All (λ s. length s.delivered ≤ 1) (steps ss new_poll_coordinator).heap
steps-delivers_once ss = All-measure_at sent 1 _ (λ a. sent-Once a _ (reached-Once ss))

-- Nothing was sent to a session.
abbrev pub IsUnsent : ℕ → Coordinator → Type 0
IsUnsent a c = measure_at sent a c.heap ≡ 0

registered-IsUnsent :
    (c : Coordinator) (key : String) (a : ℕ)
    → Once c
    → lookup key c.sessions ≡ some a
    → IsUnsent a c
unfolding Once
registered-IsUnsent c key a h found = ground (arith, h a, keys_to-lookup key a c.sessions found)

failing-IsUnsent :
    (c : Coordinator) (n a : ℕ) (rest : List ℕ)
    → Once c
    → take_at n c.to_fail ≡ some (a, rest)
    → IsUnsent a c
unfolding Once
failing-IsUnsent c n a rest h taken =
    ground (arith, h a, count_of-take_at a a n c.to_fail rest taken)

-- A session is registered, or its failure has still to be sent.
abbrev pub Awaits : ℕ → Coordinator → Type 0
Awaits a c =
    ((key : String) × (lookup key c.sessions ≡ some a))
    ⊎ ((n : ℕ) × (rest : List ℕ) × (take_at n c.to_fail ≡ some (a, rest)))

Awaits-IsUnsent : (a : ℕ) (c : Coordinator) → Once c → Awaits a c → IsUnsent a c
Awaits-IsUnsent a c h (inl (key, found)) = registered-IsUnsent c key a h found
Awaits-IsUnsent a c h (inr (n, rest, taken)) = failing-IsUnsent c n a rest h taken

-- In every interleaving, a session that is still registered, and one whose failure has still to be sent,
-- has been sent nothing: no send waits for room in a channel.
pub steps-IsUnsent :
    (ss : List Step) (a : ℕ)
    → Awaits a (steps ss new_poll_coordinator)
    → IsUnsent a (steps ss new_poll_coordinator)
steps-IsUnsent ss a = Awaits-IsUnsent a (steps ss new_poll_coordinator) (reached-Once ss)
