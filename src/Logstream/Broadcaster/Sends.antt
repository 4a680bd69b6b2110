-- ===== src/Logstream/Broadcaster/Sends.antt =====
-- What sends, closes and takes do to one channel.
use Prim.Native.Nat.{◌≤◌, ◌<◌}
use cloche.Base.{
  ℕ, ◌+◌, String, ◌≡◌, ◌≢◌, refl, ◌∙◌, inl, inr, some, List, [], ◌∷◌, ◌++◌, eqb, Dict, lookup,
  length, get_elem?, modify, get_elem?-modify_other, get_elem?-modify_same, sym, ap, arith, eq_iff,
  Bool-cases, Option-cases,
}
use mathlib.Core.List.{append_assoc}
use cloche.Logstream.Broadcaster.{
  LogLine, Subscriber, RunBroadcast, broadcast_or_new, close, buffer_size, take_line, push, send,
  send_all, close_all,
}
use cloche.Logstream.Broadcaster.Open.{count_of, registered}

-- What a subscriber got: what was taken from its channel, then what is in the buffer.
abbrev pub seen : Subscriber → List LogLine
seen s = s.taken ++ s.queue

pub send_all-other :
    (line : LogLine) (i : ℕ) (js : List ℕ) (channels channels' : List Subscriber)
    → send_all line js channels ≡ some channels'
    → count_of i js ≡ 0
    → get_elem? channels' i ≡ get_elem? channels i
unfolding send_all send
send_all-other line i [] channels channels' h k = ground (arith, h)
send_all-other line i (j ∷ js) channels channels' h k = elim (Option-cases (get_elem? channels j)) [
  | inl e ↦ send_all-other line i js channels channels' (ground (arith, h, e)) (omega (arith, k))
  | inr (s, e) ↦
      send_all-other line i js (modify j (push line) channels) channels' (ground (arith, h, e))
        (ground (arith, k))
      ∙ get_elem?-modify_other j i (push line) channels (λ same. ground (arith, k, same))
]

pub send_all-once :
    (line : LogLine) (i : ℕ) (s : Subscriber) (js : List ℕ) (channels channels' : List Subscriber)
    → send_all line js channels ≡ some channels'
    → count_of i js ≡ 1
    → get_elem? channels i ≡ some s
    → length s.queue < buffer_size
    → get_elem? channels' i ≡ some (record s { queue = s.queue ++ line ∷ [] })
unfolding send_all send
send_all-once line i s [] channels channels' h k found room = cc
send_all-once line i s (j ∷ js) channels channels' h k found room = elim (Bool-cases (eqb j i)) [
  | inl e ↦
      let same : j ≡ i = ground (arith, e) in
      let sent : send_all line js (modify i (push line) channels) ≡ some channels' =
        ground (arith, h, same, found, Bool-cases s.closed) in
      send_all-other line i js (modify i (push line) channels) channels' sent (ground (arith, k, e))
      ∙ get_elem?-modify_same i (push line) channels
      ∙ ground (arith, found, room)
  | inr e ↦
      let apart : j ≡ i → ⊥ = λ same. ground (arith, e, same) in
      let unmoved = get_elem?-modify_other j i (push line) channels apart ∙ found in
      elim (Option-cases (get_elem? channels j)) [
        | inl absent ↦
            send_all-once line i s js channels channels' (ground (arith, h, absent))
              (ground (arith, k, e)) found room
        | inr (t, at_j) ↦
            send_all-once line i s js (modify j (push line) channels) channels'
              (ground (arith, h, at_j, Bool-cases t.closed)) (ground (arith, k, e)) unmoved room
      ]
]

pub registered_apart :
    (i : ℕ) (r r' : String) (m : Dict RunBroadcast)
    → r ≢ r'
    → count_of i (broadcast_or_new (lookup r m)).subscribers
        + count_of i (broadcast_or_new (lookup r' m)).subscribers
      ≤ registered i m
unfolding lookup
registered_apart i r r' [] h = omega arith
registered_apart i r r' ((k, rb) ∷ m) h =
    ground (arith, eq_iff k r, eq_iff k r', registered_apart i r r' m h)

pub close_all-other :
    (i : ℕ) (js : List ℕ) (channels : List Subscriber)
    → count_of i js ≡ 0
    → get_elem? (close_all js channels) i ≡ get_elem? channels i
unfolding close_all
close_all-other i [] channels h = refl
close_all-other i (j ∷ js) channels h =
    close_all-other i js (modify j close channels) (ground (arith, h))
    ∙ get_elem?-modify_other j i close channels (λ same. ground (arith, h, same))

pub append_one :
    (xs : List LogLine) (line : LogLine) (ys : List LogLine)
    → (xs ++ line ∷ []) ++ ys ≡ xs ++ line ∷ ys
append_one [] line ys = refl
append_one (x ∷ xs) line ys = ap (λ zs. x ∷ zs) (append_one xs line ys)

pub seen-take_line :
    (s : Subscriber) (q : List LogLine) → s.queue ≡ q → seen (take_line s q) ≡ seen s
unfolding take_line
seen-take_line s [] e = refl
seen-take_line s (line ∷ q) e = append_one s.taken line q ∙ rw e refl

pub length-take_line :
    (s : Subscriber) (q : List LogLine)
    → s.queue ≡ q
    → length (take_line s q).queue ≤ length s.queue
unfolding take_line
length-take_line s [] e = omega arith
length-take_line s (line ∷ q) e = omega (arith, ap length e)

pub append_room :
    (s : Subscriber) (line : LogLine) (lines : List LogLine)
    → seen s ≡ lines
    → seen (record s { queue = s.queue ++ line ∷ [] }) ≡ lines ++ line ∷ []
append_room s line lines h = rw (← h) (sym (append_assoc s.taken s.queue (line ∷ [])))
