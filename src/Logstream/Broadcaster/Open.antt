-- ===== src/Logstream/Broadcaster/Open.antt =====
-- No line is sent on a closed channel.
use Prim.Native.Nat.{◌≤◌}
use cloche.Base.{
  ℕ, zero, suc, ◌+◌, ◌-◌, String, ◌≡◌, refl, inl, inr, true, false, some, List, [], ◌∷◌, ◌++◌,
  if◌then◌else◌, eqb, Dict, lookup, insert, length, get_elem?, modify, measure_at, measure_at-get,
  measure_at-append, arith, Option-cases,
}
use cloche.Logstream.Broadcaster.{
  LogLine, Subscriber, RunBroadcast, Broadcaster, broadcast_or_new, no_broadcast, start,
  new_subscriber, with_subscriber, subscribe, remove_first, close, unsubscribe, take_line, push,
  send, send_all, publish, close_all, finish, receive, Event, starts, subscribes, finishes,
  unsubscribes, publishes, receives, step, replay, new_broadcaster,
}

abbrev pub count_of : ℕ → List ℕ → ℕ
count_of a [] = 0
count_of a (b ∷ bs) = (if eqb b a then 1 else 0) + count_of a bs

-- How often a subscriber is registered, in all runs together and in one run.
abbrev pub registered : ℕ → Dict RunBroadcast → ℕ
registered i [] = 0
registered i ((k, rb) ∷ m) = count_of i rb.subscribers + registered i m

abbrev pub registered_in : ℕ → String → Broadcaster → ℕ
registered_in i run_id b = count_of i (broadcast_or_new (lookup run_id b.runs)).subscribers

abbrev pub openness : Subscriber → ℕ
openness s = if s.closed then 0 else 1

unfoldable pub Open : Broadcaster → Type 0
Open b = (i : ℕ) → registered i b.runs ≤ measure_at openness i b.channels

pub count_of-append :
    (a : ℕ) (xs ys : List ℕ) → count_of a (xs ++ ys) ≡ count_of a xs + count_of a ys
count_of-append a [] ys = omega arith
count_of-append a (x ∷ xs) ys = omega (arith, count_of-append a xs ys)

pub count_of-remove_first :
    (a i : ℕ) (xs : List ℕ)
    → count_of a (remove_first i xs) ≡ count_of a xs - (if eqb i a then 1 else 0)
unfolding remove_first
count_of-remove_first a i [] = omega arith
count_of-remove_first a i (x ∷ xs) = ground (arith, count_of-remove_first a i xs)

-- A new entry for a run stands in the place of the old one.
pub registered-insert :
    (i : ℕ) (run_id : String) (rb : RunBroadcast) (m : Dict RunBroadcast)
    → registered i (insert run_id rb m)
        + count_of i (broadcast_or_new (lookup run_id m)).subscribers
      ≡ registered i m + count_of i rb.subscribers
unfolding insert lookup
registered-insert i run_id rb [] = omega arith
registered-insert i run_id rb ((k, old) ∷ m) = ground (arith, registered-insert i run_id rb m)

pub registered_le :
    (i : ℕ) (run_id : String) (b : Broadcaster) → registered_in i run_id b ≤ registered i b.runs
registered_le i run_id b = omega (arith, registered-insert i run_id no_broadcast b.runs)

openness-le : (i : ℕ) (channels : List Subscriber) → measure_at openness i channels ≤ 1
openness-le i [] = omega arith
openness-le zero (s ∷ ss) = ground arith
openness-le (suc i) (s ∷ ss) = openness-le i ss

-- A change of one channel leaves the others open.
openness-modify :
    (i j : ℕ) (f : Subscriber → Subscriber) (channels : List Subscriber)
    → measure_at openness i channels
      ≤ measure_at openness i (modify j f channels) + (if eqb j i then 1 else 0)
unfolding modify
openness-modify i j f [] = omega arith
openness-modify zero zero f (s ∷ ss) = ground arith
openness-modify (suc i) zero f (s ∷ ss) = ground arith
openness-modify zero (suc j) f (s ∷ ss) = ground arith
openness-modify (suc i) (suc j) f (s ∷ ss) = ground (arith, openness-modify i j f ss)

openness-kept :
    (i j : ℕ) (f : Subscriber → Subscriber) (channels : List Subscriber)
    → ((s : Subscriber) → (f s).closed ≡ s.closed)
    → measure_at openness i (modify j f channels) ≡ measure_at openness i channels
unfolding modify
openness-kept i j f [] h = refl
openness-kept zero zero f (s ∷ ss) h = ground (arith, h s)
openness-kept (suc i) zero f (s ∷ ss) h = refl
openness-kept zero (suc j) f (s ∷ ss) h = refl
openness-kept (suc i) (suc j) f (s ∷ ss) h = openness-kept i j f ss h

openness-close_all :
    (i : ℕ) (js : List ℕ) (channels : List Subscriber)
    → measure_at openness i channels ≤ measure_at openness i (close_all js channels) + count_of i js
unfolding close_all
openness-close_all i [] channels = omega arith
openness-close_all i (j ∷ js) channels =
    omega
      (arith, openness-modify i j close channels, openness-close_all i js (modify j close channels))

start-Open : (run_id : String) (b : Broadcaster) → Open b → Open (start run_id b)
unfolding Open start
start-Open run_id b h i =
    omega (arith, h i, registered-insert i run_id (broadcast_or_new (lookup run_id b.runs)) b.runs)

subscribe-Open : (run_id : String) (b : Broadcaster) → Open b → Open (subscribe run_id b)
unfolding Open subscribe
subscribe-Open run_id b h i =
    let rb = broadcast_or_new (lookup run_id b.runs) in
    ground (
      arith,
      h i,
      registered-insert i run_id (with_subscriber (length b.channels) rb) b.runs,
      count_of-append i rb.subscribers (length b.channels ∷ []),
      measure_at-append openness i b.channels (new_subscriber rb.done),
    )

-- What is registered under another run stays registered, at most once.
unsubscribe-Open :
    (run_id : String) (j : ℕ) (b : Broadcaster)
    → registered j b.runs ≤ registered_in j run_id b
    → Open b
    → Open (unsubscribe run_id j b)
unfolding Open unsubscribe
unsubscribe-Open run_id j b own h i = elim (Option-cases (lookup run_id b.runs)) [
  | inl e ↦ ground (arith, e, h i)
  | inr (rb, e) ↦
      let rb' = record rb { subscribers = remove_first j rb.subscribers } in
      ground (
        arith,
        e,
        own,
        h i,
        h j,
        openness-le i b.channels,
        registered-insert i run_id rb' b.runs,
        count_of-remove_first i j rb.subscribers,
        openness-modify i j close b.channels,
      )
]

-- A send to a registered subscriber does not panic, and leaves every channel as open as it was.
send_all-Open :
    (line : LogLine) (js : List ℕ) (channels : List Subscriber)
    → ((i : ℕ) → count_of i js ≤ measure_at openness i channels)
    → (channels' : List Subscriber) × (send_all line js channels ≡ some channels')
      × ((i : ℕ) → measure_at openness i channels' ≡ measure_at openness i channels)
unfolding send_all send
send_all-Open line [] channels h = (channels, refl, λ i. refl)
send_all-Open line (j ∷ js) channels h = elim (Option-cases (get_elem? channels j)) [
  | inl e ↦ absurd (ground (arith, e, h j, measure_at-get openness j channels))
  | inr (s, e) ↦
      let is_open : s.closed ≡ false = ground (arith, e, h j, measure_at-get openness j channels) in
      let kept = λ (i : ℕ). openness-kept i j (push line) channels (λ s. ground arith) in
      let (channels', sent, same) =
        send_all-Open line js (modify j (push line) channels) (λ i. ground (arith, h i, kept i)) in
      (channels', ground (arith, e, is_open, sent), λ i. ground (arith, same i, kept i))
]

publish-Open :
    (run_id : String) (line : LogLine) (b : Broadcaster)
    → Open b
    → (b' : Broadcaster) × (publish run_id line b ≡ some b') × Open b'
unfolding publish Open
publish-Open run_id line b h = elim (Option-cases (lookup run_id b.runs)) [
  | inl e ↦ (b, ground (arith, e), h)
  | inr (rb, e) ↦
      let rb' = record rb { history = rb.history ++ line ∷ [] } in
      let (channels, sent, same) =
        send_all-Open line rb.subscribers b.channels
          (λ i. ground (arith, e, h i, registered_le i run_id b)) in
      (
        record { runs = insert run_id rb' b.runs; channels = channels },
        ground (arith, e, sent),
        λ i. ground (arith, e, h i, same i, registered-insert i run_id rb' b.runs),
      )
]

finish-Open : (run_id : String) (b : Broadcaster) → Open b → Open (finish run_id b)
unfolding finish Open
finish-Open run_id b h i = elim (Option-cases (lookup run_id b.runs)) [
  | inl e ↦ ground (arith, e, h i)
  | inr (rb, e) ↦ ground (
    arith,
    e,
    h i,
    openness-le i b.channels,
    openness-close_all i rb.subscribers b.channels,
    registered-insert i run_id (record { subscribers = []; history = []; done = true }) b.runs,
  )
]

receive-Open : (j : ℕ) (b : Broadcaster) → Open b → Open (receive j b)
unfolding receive Open take_line
receive-Open j b h i =
    ground (arith, h i, openness-kept i j (λ s. take_line s s.queue) b.channels (λ s. ground arith))

-- An unsubscription names the run under which the subscriber is registered, if it is.
abbrev pub IsOwn : Event → Broadcaster → Type 0
IsOwn (unsubscribes run_id i) b = registered i b.runs ≤ registered_in i run_id b
IsOwn _ b = Unit

abbrev pub OwnFrom : Broadcaster → List Event → Type 0
OwnFrom b [] = Unit
OwnFrom b (e ∷ es) = IsOwn e b × ((b' : Broadcaster) → step e b ≡ some b' → OwnFrom b' es)

step-Open :
    (e : Event) (b : Broadcaster)
    → IsOwn e b
    → Open b
    → (b' : Broadcaster) × (step e b ≡ some b') × Open b'
unfolding step
step-Open (starts run_id) b own h = (start run_id b, refl, start-Open run_id b h)
step-Open (subscribes run_id) b own h = (subscribe run_id b, refl, subscribe-Open run_id b h)
step-Open (finishes run_id) b own h = (finish run_id b, refl, finish-Open run_id b h)
step-Open (unsubscribes run_id i) b own h =
    (unsubscribe run_id i b, refl, unsubscribe-Open run_id i b own h)
step-Open (publishes run_id line) b own h = publish-Open run_id line b h
step-Open (receives i) b own h = (receive i b, refl, receive-Open i b h)

replay-Open_from :
    (es : List Event) (b : Broadcaster)
    → OwnFrom b es
    → Open b
    → (b' : Broadcaster) × (replay es b ≡ some b') × Open b'
unfolding replay
replay-Open_from [] b own h = (b, refl, h)
replay-Open_from (e ∷ es) b (own, later) h =
    let (b', stepped, h') = step-Open e b own h in
    let (end, replayed, h'') = replay-Open_from es b' (later b' stepped) h' in
    (end, ground (arith, stepped, replayed), h'')

-- If every unsubscription names the subscriber's own run, no sequence of calls sends a line on a closed
-- channel: it ends in a state, in which every registered subscriber is open and registered once.
pub replay-Open :
    (es : List Event)
    → OwnFrom new_broadcaster es
    → (b : Broadcaster) × (replay es new_broadcaster ≡ some b) × Open b
unfolding Open
replay-Open es own = replay-Open_from es new_broadcaster own (λ i. omega arith)
