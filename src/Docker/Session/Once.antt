-- ===== src/Docker/Session/Once.antt =====
-- A request gets at most one result.
use Prim.Native.Nat.{◌≤◌}
use cloche.Base.{
  ℕ, zero, suc, ◌+◌, String, Bool, ◌≡◌, refl, inl, inr, none, some, List, [], ◌∷◌, if◌then◌else◌,
  ltb, Dict, lookup, insert, length, modify, length-modify, length-append, measure_at,
  measure_at-append, measure_at-modify, keys_to, keys_to-insert, keys_to-delete,
  keys_to-delete_found, get_elem?, get_elem?-modify_other, get_elem?-modify_same, keys_to-lookup,
  measure_at-get, All-measure_at, All, arith, Option-cases, Bool-cases, eq_iff, ◌==◌, ◌∙◌,
}
use cloche.Docker.Session.{
  StepResult, Channel, ContainerSession, new_session, put, begin_step, take_result, end_step,
  deliver_result, fail_each, fail_all_pending, Event, begins, ends, delivers, disconnects, connects,
  step, replay,
}

-- How many results a channel has been given.
abbrev pub given : Channel → ℕ
given ch = length ch.buffer + length ch.taken

-- Each channel has been given a result, or is that of a pending request, or neither.
Once : ContainerSession → Type 0
Once s =
    (a : ℕ)
    → measure_at given a s.channels + keys_to a s.pending
      ≤ (if ltb a (length s.channels) then 1 else 0)

put-le : (r : StepResult) (ch : Channel) → given (put r ch) ≤ given ch + 1
put-le r ch = ground (arith, length-append ch.buffer (r ∷ []))

take-le : (ch : Channel) → given (take_result ch) ≤ given ch + 0
take-le ch = omega (arith, length-append ch.taken ch.buffer)

begin_step-Once :
    (request_id : String) (sent : Bool) (s : ContainerSession)
    → Once s
    → Once (begin_step request_id sent s)
unfolding Once begin_step
begin_step-Once request_id sent s h a =
    let ch : Channel = record { buffer = []; taken = [] } in
    ground (
      arith,
      h a,
      measure_at-append given a s.channels ch,
      length-append s.channels (ch ∷ []),
      keys_to-insert a (length s.channels) request_id s.pending,
      keys_to-delete a request_id (insert request_id (length s.channels) s.pending),
    )

end_step-Once :
    (request_id : String) (b : ℕ) (s : ContainerSession) → Once s → Once (end_step request_id b s)
unfolding Once end_step
end_step-Once request_id b s h a = ground (
  arith,
  h a,
  keys_to-delete a request_id s.pending,
  length-modify b take_result s.channels,
  measure_at-modify given 0 b a take_result s.channels take-le,
)

deliver_result-Once : (r : StepResult) (s : ContainerSession) → Once s → Once (deliver_result r s)
unfolding Once deliver_result
deliver_result-Once r s h a = elim (Option-cases (lookup r.request_id s.pending)) [
  | inl e ↦ ground (arith, e, h a)
  | inr (b, e) ↦ ground (
    arith,
    e,
    h a,
    keys_to-delete_found a b r.request_id s.pending e,
    length-modify b (put r) s.channels,
    measure_at-modify given 1 b a (put r) s.channels (put-le r),
  )
]

length-fail_each :
    (pending : Dict ℕ) (channels : List Channel)
    → length (fail_each pending channels) ≡ length channels
unfolding fail_each
length-fail_each [] channels = refl
length-fail_each ((k, b) ∷ pending) channels =
    let r : StepResult = record { request_id = k; result = "fail" } in
    omega (
      arith,
      length-fail_each pending (modify b (put r) channels),
      length-modify b (put r) channels,
    )

fail_each-le :
    (a : ℕ) (pending : Dict ℕ) (channels : List Channel)
    → measure_at given a (fail_each pending channels)
      ≤ measure_at given a channels + keys_to a pending
unfolding fail_each
fail_each-le a [] channels = omega arith
fail_each-le a ((k, b) ∷ pending) channels =
    let r : StepResult = record { request_id = k; result = "fail" } in
    omega (
      arith,
      fail_each-le a pending (modify b (put r) channels),
      measure_at-modify given 1 b a (put r) channels (put-le r),
    )

step-Once : (e : Event) (s : ContainerSession) → Once s → Once (step e s)
unfolding Once step fail_all_pending
step-Once (begins request_id sent) s h = begin_step-Once request_id sent s h
step-Once (ends request_id a) s h = end_step-Once request_id a s h
step-Once (delivers r) s h = deliver_result-Once r s h
step-Once disconnects s h = λ a.
    ground (arith, h a, fail_each-le a s.pending s.channels, length-fail_each s.pending s.channels)
step-Once connects s h = h

replay-Once : (es : List Event) (s : ContainerSession) → Once s → Once (replay es s)
unfolding replay
replay-Once [] s h = h
replay-Once (e ∷ es) s h = replay-Once es (step e s) (step-Once e s h)

new_session-Once : Once new_session
unfolding Once
new_session-Once a = omega arith

get_elem?-out {ℓ} : {A : Type ℓ} (xs : List A) (a : ℕ) → get_elem? xs a ≡ none → length xs ≤ a
get_elem?-out [] a h = omega arith
get_elem?-out (x ∷ xs) zero h = cc
get_elem?-out (x ∷ xs) (suc a) h = omega (arith, get_elem?-out xs a h)

empty_of_length {ℓ} : {A : Type ℓ} (xs : List A) → length xs ≡ 0 → xs ≡ []
empty_of_length [] h = refl
empty_of_length (x ∷ xs) h = absurd (omega arith)

-- A request that is pending has been given nothing.
waits_empty :
    (s : ContainerSession) (request_id : String) (a : ℕ)
    → Once s
    → lookup request_id s.pending ≡ some a
    → (ch : Channel) × (get_elem? s.channels a ≡ some ch) × (ch.buffer ≡ []) × (ch.taken ≡ [])
unfolding Once
waits_empty s request_id a h found = elim (Option-cases (get_elem? s.channels a)) [
  | inl e ↦ absurd (
      ground
        (arith, h a, keys_to-lookup request_id a s.pending found, get_elem?-out s.channels a e))
  | inr (ch, e) ↦
      let nothing : given ch ≡ 0 = ground (
        arith,
        h a,
        e,
        keys_to-lookup request_id a s.pending found,
        measure_at-get given a s.channels,
      ) in
      (
        ch,
        e,
        empty_of_length ch.buffer (omega (arith, nothing)),
        empty_of_length ch.taken (omega (arith, nothing)),
      )
]

fail_each-other :
    (a : ℕ) (pending : Dict ℕ) (channels : List Channel)
    → keys_to a pending ≡ 0
    → get_elem? (fail_each pending channels) a ≡ get_elem? channels a
unfolding fail_each
fail_each-other a [] channels h = refl
fail_each-other a ((k, b) ∷ pending) channels h =
    let r : StepResult = record { request_id = k; result = "fail" } in
    fail_each-other a pending (modify b (put r) channels) (ground (arith, h))
    ∙ get_elem?-modify_other b a (put r) channels (λ same. ground (arith, h, same))

fail_each_at :
    (a : ℕ) (request_id : String) (pending : Dict ℕ) (channels : List Channel) (ch : Channel)
    → lookup request_id pending ≡ some a
    → keys_to a pending ≤ 1
    → get_elem? channels a ≡ some ch
    → ch.buffer ≡ []
    → get_elem? (fail_each pending channels) a
      ≡ some (record {
        buffer = record { request_id = request_id; result = "fail" } ∷ [];
        taken = ch.taken;
      })
unfolding fail_each lookup
fail_each_at a request_id [] channels ch found once at empty = cc
fail_each_at a request_id ((k, b) ∷ pending) channels ch found once at empty =
    let r : StepResult = record { request_id = k; result = "fail" } in
    elim (Bool-cases (k == request_id)) [
      | inl e ↦
          let same : b ≡ a = ground (arith, e, found) in
          let named : k ≡ request_id = (eq_iff k request_id).0 e in
          let hit : get_elem? (modify b (put r) channels) a ≡ some (put r ch) =
            ground (arith, same, at, get_elem?-modify_same b (put r) channels) in
          fail_each-other a pending (modify b (put r) channels) (ground (arith, once, same))
          ∙ hit
          ∙ ground (arith, empty, named)
      | inr e ↦
          let later : lookup request_id pending ≡ some a = ground (arith, e, found) in
          let apart : b ≡ a → ⊥ =
            λ same. ground (arith, once, same, keys_to-lookup request_id a pending later) in
          fail_each_at a request_id pending (modify b (put r) channels) ch later
            (ground (arith, once)) (get_elem?-modify_other b a (put r) channels apart ∙ at) empty
    ]

given-Once : (s : ContainerSession) → Once s → (a : ℕ) → measure_at given a s.channels ≤ 1
unfolding Once
given-Once s h a = ground (arith, h a)

-- However requests, results and disconnections interleave, a request gets at most one result, and a result that
-- comes for a pending request is not dropped: it lies in its channel, which was empty.
pub replay-deliver_result :
    (es : List Event) (r : StepResult) (a : ℕ)
    → lookup r.request_id (replay es new_session).pending ≡ some a
    → (get_elem? (deliver_result r (replay es new_session)).channels a
        ≡ some (record { buffer = r ∷ []; taken = [] }))
      × All (λ ch. given ch ≤ 1) (deliver_result r (replay es new_session)).channels
unfolding deliver_result
replay-deliver_result es r a found =
    let s = replay es new_session in
    let h = replay-Once es new_session new_session-Once in
    let (ch, at, empty, none_taken) = waits_empty s r.request_id a h found in
    let hit : get_elem? (modify a (put r) s.channels) a ≡ some (put r ch) =
      ground (arith, at, get_elem?-modify_same a (put r) s.channels) in
    (
      ground (arith, found, hit, empty, none_taken),
      All-measure_at given 1 (deliver_result r s).channels
          (given-Once (deliver_result r s) (deliver_result-Once r s h)),
    )

-- However requests, results and disconnections interleave: when a session is cut off, each request that is pending
-- has the result "fail" in its channel, and none is pending any more.
pub replay-fail_all_pending :
    (es : List Event) (request_id : String) (a : ℕ)
    → lookup request_id (replay es new_session).pending ≡ some a
    → (get_elem? (fail_all_pending (replay es new_session)).channels a
        ≡ some (record {
          buffer = record { request_id = request_id; result = "fail" } ∷ [];
          taken = [];
        }))
      × ((fail_all_pending (replay es new_session)).pending ≡ [])
unfolding fail_all_pending Once
replay-fail_all_pending es request_id a found =
    let s = replay es new_session in
    let h = replay-Once es new_session new_session-Once in
    let (ch, at, empty, none_taken) = waits_empty s request_id a h found in
    (
      fail_each_at a request_id s.pending s.channels ch found (ground (arith, h a)) at empty
          ∙ ground (arith, none_taken),
      refl,
    )
