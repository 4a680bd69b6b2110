-- ===== src/Logstream/Broadcaster/Follows.antt =====
-- A subscriber keeps up with the history of its run, under every call.
use Prim.Native.Nat.{◌≤◌, ◌<◌}
use cloche.Base.{
  ℕ, String, ◌≡◌, ◌≢◌, refl, ◌∙◌, inl, inr, true, false, some, List, [], ◌∷◌, ◌++◌, ◌==◌,
  if◌then◌else◌, eqb, lookup, insert, lookup-insert, length, get_elem?, length-append,
  get_elem?-append, get_elem?-lt, get_elem?-modify_other, get_elem?-modify_same, arith, eq_iff,
  Bool-cases, Option-cases,
}
use mathlib.Core.List.{append_assoc}
use cloche.Logstream.Broadcaster.{
  LogLine, Subscriber, RunBroadcast, Broadcaster, broadcast_or_new, start, new_subscriber,
  with_subscriber, subscribe, remove_first, close, get_history, buffer_size, take_line, unsubscribe,
  send_all, publish, finish, receive,
}
use cloche.Logstream.Broadcaster.Open.{
  count_of, registered, registered_in, registered-insert, count_of-append, count_of-remove_first,
}
use cloche.Logstream.Broadcaster.Sends.{
  seen, send_all-other, send_all-once, registered_apart, seen-take_line, length-take_line,
  append_room, close_all-other,
}

-- A subscriber of the run that got exactly the lines behind the first ones of the history.
pub record Follows (run_id : String) (i : ℕ) (before lines : List LogLine) (b : Broadcaster)
    : Type 0 where
  pub s : Subscriber
  pub stands : get_elem? b.channels i ≡ some s
  pub got : seen s ≡ lines
  pub waits : length s.queue ≤ length lines
  pub total : registered i b.runs ≡ 1
  pub here : registered_in i run_id b ≡ 1
  pub history : get_history run_id b ≡ before ++ lines

after_send :
    (line : LogLine) (r : String) (b b' : Broadcaster) (rb : RunBroadcast)
    (channels : List Subscriber)
    → publish r line b ≡ some b'
    → lookup r b.runs ≡ some rb
    → send_all line rb.subscribers b.channels ≡ some channels
    → record {
      runs = insert r (record rb { history = rb.history ++ line ∷ [] }) b.runs;
      channels = channels;
    }
      ≡ b'
unfolding publish
after_send line r b b' rb channels h e sent = ground (arith, h, e, sent)

module _ (run_id : String) (i : ℕ) (before : List LogLine) where
  pub start-Follows :
      (r : String) (lines : List LogLine) (b : Broadcaster)
      → Follows run_id i before lines b
      → Follows run_id i before lines (start r b)
  unfolding start get_history
  start-Follows r lines b f = record {
    s = f.s;
    stands = f.stands;
    got = f.got;
    waits = f.waits;
    total =
        omega (arith, f.total, registered-insert i r (broadcast_or_new (lookup r b.runs)) b.runs);
    here = ground (
      arith,
      f.here,
      eq_iff r run_id,
      lookup-insert r run_id (broadcast_or_new (lookup r b.runs)) b.runs,
    );
    history = ground (
      arith,
      f.history,
      eq_iff r run_id,
      lookup-insert r run_id (broadcast_or_new (lookup r b.runs)) b.runs,
    );
  }

  pub subscribe-Follows :
      (r : String) (lines : List LogLine) (b : Broadcaster)
      → Follows run_id i before lines b
      → Follows run_id i before lines (subscribe r b)
  unfolding subscribe get_history
  subscribe-Follows r lines b f =
      let rb = broadcast_or_new (lookup r b.runs) in
      let rb' = with_subscriber (length b.channels) rb in
      let more = count_of-append i rb.subscribers (length b.channels ∷ []) in
      let lt = get_elem?-lt b.channels i f.s f.stands in
      record {
        s = f.s;
        stands = get_elem?-append b.channels (new_subscriber rb.done ∷ []) i f.s f.stands;
        got = f.got;
        waits = f.waits;
        total = ground (arith, f.total, registered-insert i r rb' b.runs, more, lt);
        here = ground (arith, f.here, eq_iff r run_id, lookup-insert r run_id rb' b.runs, more, lt);
        history = ground (arith, f.history, eq_iff r run_id, lookup-insert r run_id rb' b.runs);
      }

  pub receive-Follows :
      (j : ℕ) (lines : List LogLine) (b : Broadcaster)
      → Follows run_id i before lines b
      → Follows run_id i before lines (receive j b)
  unfolding receive get_history
  receive-Follows j lines b f = elim (Bool-cases (eqb j i)) [
    | inl e ↦ record {
      s = take_line f.s f.s.queue;
      stands =
          let same : j ≡ i = ground (arith, e) in
          rw same (
            get_elem?-modify_same i (λ s. take_line s s.queue) b.channels
            ∙ ground (arith, f.stands));
      got = seen-take_line f.s f.s.queue refl ∙ f.got;
      waits = omega (arith, f.waits, length-take_line f.s f.s.queue refl);
      total = f.total;
      here = f.here;
      history = f.history;
    }
    | inr e ↦ record {
      s = f.s;
      stands =
          get_elem?-modify_other j i (λ s. take_line s s.queue) b.channels
            (λ same. ground (arith, e, same))
          ∙ f.stands;
      got = f.got;
      waits = f.waits;
      total = f.total;
      here = f.here;
      history = f.history;
    }
  ]

  pub unsubscribe-Follows :
      (r : String) (j : ℕ) (lines : List LogLine) (b : Broadcaster)
      → j ≢ i
      → Follows run_id i before lines b
      → Follows run_id i before lines (unsubscribe r j b)
  unfolding unsubscribe get_history
  unsubscribe-Follows r j lines b apart f = elim (Option-cases (lookup r b.runs)) [
    | inl e ↦ rw (e, unsubscribe) f
    | inr (rb, e) ↦
        let rb' = record rb { subscribers = remove_first j rb.subscribers } in
        let fewer = count_of-remove_first i j rb.subscribers in
        rw (e, unsubscribe)
          (record {
            s = f.s;
            stands = get_elem?-modify_other j i close b.channels apart ∙ f.stands;
            got = f.got;
            waits = f.waits;
            total = ground (arith, e, f.total, registered-insert i r rb' b.runs, fewer, apart);
            here = ground (
              arith,
              e,
              f.here,
              eq_iff r run_id,
              lookup-insert r run_id rb' b.runs,
              fewer,
              apart,
            );
            history =
                ground (arith, e, f.history, eq_iff r run_id, lookup-insert r run_id rb' b.runs);
          })
  ]

  pub finish-Follows :
      (r : String) (lines : List LogLine) (b : Broadcaster)
      → r ≢ run_id
      → Follows run_id i before lines b
      → Follows run_id i before lines (finish r b)
  unfolding finish get_history
  finish-Follows r lines b apart f = elim (Option-cases (lookup r b.runs)) [
    | inl e ↦ rw (e, finish) f
    | inr (rb, e) ↦
        let none_there : count_of i rb.subscribers ≡ 0 =
          ground (arith, e, f.total, f.here, registered_apart i r run_id b.runs apart) in
        let rb' : RunBroadcast = record { subscribers = []; history = []; done = true } in
        rw (e, finish)
          (record {
            s = f.s;
            stands = close_all-other i rb.subscribers b.channels none_there ∙ f.stands;
            got = f.got;
            waits = f.waits;
            total = ground (arith, e, f.total, registered-insert i r rb' b.runs, none_there);
            here =
                ground (arith, f.here, eq_iff r run_id, lookup-insert r run_id rb' b.runs, apart);
            history =
                ground
                  (arith, f.history, eq_iff r run_id, lookup-insert r run_id rb' b.runs, apart);
          })
  ]

  sent-Follows :
      (r : String) (line : LogLine) (lines : List LogLine) (b : Broadcaster) (rb : RunBroadcast)
      (channels : List Subscriber)
      → lookup r b.runs ≡ some rb
      → send_all line rb.subscribers b.channels ≡ some channels
      → ((r == run_id) ≡ true → length lines < buffer_size)
      → Follows run_id i before lines b
      → Follows run_id i before (if r == run_id then lines ++ line ∷ [] else lines) (record {
        runs = insert r (record rb { history = rb.history ++ line ∷ [] }) b.runs;
        channels = channels;
      })
  unfolding get_history
  sent-Follows r line lines b rb channels e sent room f =
      let rb' : RunBroadcast = record rb { history = rb.history ++ line ∷ [] } in
      let later = lookup-insert r run_id rb' b.runs in
      let total' : registered i (insert r rb' b.runs) ≡ 1 =
        ground (arith, e, f.total, registered-insert i r rb' b.runs) in
      let here' : count_of i (broadcast_or_new (lookup run_id (insert r rb' b.runs))).subscribers
          ≡ 1 =
        ground (arith, e, f.here, eq_iff r run_id, later) in
      elim (Bool-cases (r == run_id)) [
        | inl same ↦ rw same (record {
          s = record f.s { queue = f.s.queue ++ line ∷ [] };
          stands =
              send_all-once line i f.s rb.subscribers b.channels channels sent
                (ground (arith, e, f.here, eq_iff r run_id, same)) f.stands
                (omega (arith, f.waits, room same));
          got = append_room f.s line lines f.got;
          waits = omega (
            arith,
            f.waits,
            length-append f.s.queue (line ∷ []),
            length-append lines (line ∷ []),
          );
          total = total';
          here = here';
          history = ground (
            arith,
            e,
            f.history,
            eq_iff r run_id,
            later,
            same,
            append_assoc before lines (line ∷ []),
          );
        })
        | inr other ↦ rw other (record {
          s = f.s;
          stands =
              send_all-other line i rb.subscribers b.channels channels sent (
                ground (
                  arith,
                  e,
                  f.total,
                  f.here,
                  eq_iff r run_id,
                  other,
                  registered_apart i r run_id b.runs,
                ))
              ∙ f.stands;
          got = f.got;
          waits = f.waits;
          total = total';
          here = here';
          history = ground (arith, f.history, eq_iff r run_id, later, other);
        })
      ]

  pub publish-Follows :
      (r : String) (line : LogLine) (lines : List LogLine) (b b' : Broadcaster)
      → publish r line b ≡ some b'
      → ((r == run_id) ≡ true → length lines < buffer_size)
      → Follows run_id i before lines b
      → Follows run_id i before (if r == run_id then lines ++ line ∷ [] else lines) b'
  unfolding publish
  publish-Follows r line lines b b' h room f = elim (Option-cases (lookup r b.runs)) [
    | inl e ↦
        let other : (r == run_id) ≡ false = ground (arith, e, f.here, eq_iff r run_id) in
        let same : b ≡ b' = ground (arith, e, h) in rw (other, ← same) f
    | inr (rb, e) ↦ elim (Option-cases (send_all line rb.subscribers b.channels)) [
      | inl panics ↦ absurd (ground (arith, e, h, panics))
      | inr (channels, sent) ↦
          rw (← after_send line r b b' rb channels h e sent)
            (sent-Follows r line lines b rb channels e sent room f)
    ]
  ]
