-- ===== src/Logstream/Broadcaster/History.antt =====
-- A subscriber and the history that came with it miss no line and repeat none.
use Prim.Native.Nat.{◌≤◌}
use cloche.Base.{
  ℕ, String, ◌≡◌, ◌≢◌, refl, ◌∙◌, inl, inr, false, some, List, [], ◌∷◌, ◌++◌, ◌==◌, if◌then◌else◌,
  lookup, lookup-insert, length, get_elem?, length-append, get_elem?-lt, get_elem?-length,
  measure_at-get, All, sym, arith, eq_refl, Bool-cases, Option-cases,
}
use mathlib.Core.List.{append-nil}
use mathlib.Core.Option.{some_inj}
use cloche.Logstream.Broadcaster.{
  LogLine, Subscriber, Broadcaster, broadcast_or_new, new_subscriber, with_subscriber, subscribe,
  subscribe_with_history, get_history, buffer_size, Event, starts, subscribes, finishes,
  unsubscribes, publishes, receives, step, replay,
}
use cloche.Logstream.Broadcaster.Open.{
  registered, registered-insert, registered_le, count_of-append, openness, Open,
}
use cloche.Logstream.Broadcaster.Sends.{seen, append_one}
use cloche.Logstream.Broadcaster.Follows.{
  Follows, start-Follows, subscribe-Follows, receive-Follows, unsubscribe-Follows, finish-Follows,
  publish-Follows,
}

-- The lines that a list of events publishes for a run.
abbrev pub published : String → List Event → List LogLine
published run_id [] = []
published run_id (publishes r line ∷ es) =
    if r == run_id then line ∷ published run_id es else published run_id es
published run_id (_ ∷ es) = published run_id es

-- The event neither ends the run nor unsubscribes the subscriber.
abbrev pub IsQuiet : String → ℕ → Event → Type 0
IsQuiet run_id i (finishes r) = r ≢ run_id
IsQuiet run_id i (unsubscribes r j) = j ≢ i
IsQuiet run_id i _ = Unit

-- The lines of the run, with that of one more event.
abbrev after : String → Event → List LogLine → List LogLine
after run_id (publishes r line) lines = if r == run_id then lines ++ line ∷ [] else lines
after run_id _ lines = lines

after-published :
    (run_id : String) (e : Event) (lines : List LogLine) (es : List Event)
    → after run_id e lines ++ published run_id es ≡ lines ++ published run_id (e ∷ es)
after-published run_id (publishes r line) lines es = elim (Bool-cases (r == run_id)) [
  | inl same ↦ rw same (append_one lines line (published run_id es))
  | inr other ↦ rw other refl
]
after-published run_id (starts r) lines es = refl
after-published run_id (subscribes r) lines es = refl
after-published run_id (finishes r) lines es = refl
after-published run_id (unsubscribes r j) lines es = refl
after-published run_id (receives j) lines es = refl

module _ (run_id : String) (i : ℕ) (before : List LogLine) where
  step-Follows :
      (e : Event) (lines : List LogLine) (es : List Event) (b b' : Broadcaster)
      → IsQuiet run_id i e
      → step e b ≡ some b'
      → length (lines ++ published run_id (e ∷ es)) ≤ buffer_size
      → Follows run_id i before lines b
      → Follows run_id i before (after run_id e lines) b'
  unfolding step
  step-Follows (starts r) lines es b b' quiet h room f =
      rw (← some_inj.0 h) (start-Follows run_id i before r lines b f)
  step-Follows (subscribes r) lines es b b' quiet h room f =
      rw (← some_inj.0 h) (subscribe-Follows run_id i before r lines b f)
  step-Follows (finishes r) lines es b b' quiet h room f =
      rw (← some_inj.0 h) (finish-Follows run_id i before r lines b quiet f)
  step-Follows (unsubscribes r j) lines es b b' quiet h room f =
      rw (← some_inj.0 h) (unsubscribe-Follows run_id i before r j lines b quiet f)
  step-Follows (receives j) lines es b b' quiet h room f =
      rw (← some_inj.0 h) (receive-Follows run_id i before j lines b f)
  step-Follows (publishes r line) lines es b b' quiet h room f =
      publish-Follows run_id i before r line lines b b' h
        (λ same.
          ground
            (arith, same, room, length-append lines (published run_id (publishes r line ∷ es))))
        f

  replay-Follows :
      (es : List Event) (lines : List LogLine) (b b' : Broadcaster)
      → All (IsQuiet run_id i) es
      → replay es b ≡ some b'
      → length (lines ++ published run_id es) ≤ buffer_size
      → Follows run_id i before lines b
      → Follows run_id i before (lines ++ published run_id es) b'
  unfolding replay
  replay-Follows [] lines b b' quiet h room f = rw (append-nil, ← some_inj.0 h) f
  replay-Follows (e ∷ es) lines b b' quiet h room f = elim (Option-cases (step e b)) [
    | inl panics ↦ absurd (ground (arith, h, panics))
    | inr (c, stepped) ↦
        let whole = after-published run_id e lines es in
        rw (← whole) (
          replay-Follows es (after run_id e lines) c b' quiet.1 (ground (arith, h, stepped))
            (rw whole room) (step-Follows e lines es b c quiet.0 stepped room f))
  ]

registered_fresh : (b : Broadcaster) → Open b → registered (length b.channels) b.runs ≡ 0
unfolding Open
registered_fresh b h = elim (Option-cases (get_elem? b.channels (length b.channels))) [
  | inl e ↦
      ground
        (arith, e, h (length b.channels), measure_at-get openness (length b.channels) b.channels)
  | inr (s, e) ↦ absurd (omega (arith, get_elem?-lt b.channels (length b.channels) s e))
]

-- A subscriber that has just subscribed to a run that is not done.
subscribe-Follows_new :
    (run_id : String) (b : Broadcaster)
    → Open b
    → (broadcast_or_new (lookup run_id b.runs)).done ≡ false
    → Follows run_id (length b.channels) (get_history run_id b) [] (subscribe run_id b)
unfolding subscribe get_history Open
subscribe-Follows_new run_id b is_open goes_on =
    let rb = broadcast_or_new (lookup run_id b.runs) in
    let n = length b.channels in
    let rb' = with_subscriber n rb in
    let later = lookup-insert run_id run_id rb' b.runs in
    let more = count_of-append n rb.subscribers (n ∷ []) in
    let fresh = registered_fresh b is_open in
    record {
      s = new_subscriber false;
      stands = get_elem?-length b.channels (new_subscriber rb.done ∷ []) ∙ rw goes_on refl;
      got = refl;
      waits = omega arith;
      total = ground (arith, goes_on, registered-insert n run_id rb' b.runs, more, fresh);
      here = ground (arith, goes_on, later, eq_refl run_id, more, fresh, registered_le n run_id b);
      history = rw append-nil (ground (arith, goes_on, later, eq_refl run_id));
    }

-- In a state in which every registered subscriber is open and registered once, a subscriber that
-- asks for the history of a run that is not done has no gap: while the calls that follow do not
-- panic, neither unsubscribe it nor finish the run, and publish at most 256 lines of the run, it
-- gets exactly the lines published after it subscribed, in their order, and these follow the
-- history it was given as the history now shows.
pub replay-subscribe_with_history :
    (es : List Event) (run_id : String) (b b' : Broadcaster)
    → Open b
    → (broadcast_or_new (lookup run_id b.runs)).done ≡ false
    → All (IsQuiet run_id (length b.channels)) es
    → length (published run_id es) ≤ buffer_size
    → replay es (subscribe_with_history run_id b).0 ≡ some b'
    → (s : Subscriber) × (get_elem? b'.channels (length b.channels) ≡ some s)
      × (seen s ≡ published run_id es)
      × ((subscribe_with_history run_id b).1 ++ seen s ≡ get_history run_id b')
unfolding subscribe_with_history get_history
replay-subscribe_with_history es run_id b b' is_open goes_on quiet room h =
    let f =
      replay-Follows run_id (length b.channels) (get_history run_id b) es [] (subscribe run_id b) b'
        quiet h room (subscribe-Follows_new run_id b is_open goes_on) in
    (f.s, f.stands, f.got, rw f.got (sym f.history))
