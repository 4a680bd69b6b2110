-- ===== src/Tests/Docker.antt =====
-- The theorems about the container adapter on concrete data.
use Prim.Native.Nat.{◌≤◌}
use cloche.Base.{
  Bool, true, false, not, ◌≡◌, ◌↔◌, refl, some, List, [], ◌∷◌, ◌++◌, All, length, get_elem?, lookup,
  insert, any, arith,
}
use cloche.Docker.Pool
use cloche.Docker.Pool.{get_session, fail_pending_requests, size}
use cloche.Docker.Pool.Names.{one_container, fail_pending_requests_lem}
use Prim.Native.String
use cloche.Docker.Session
use cloche.Docker.Session.{connects, new_session, deliver_result, fail_all_pending}
use cloche.Docker.Session.Once.{given, replay-deliver_result, replay-fail_all_pending}
use cloche.Docker.Ignore
use cloche.Docker.Ignore.{
  Bytes, IgnorePattern, parse_clocheignore, applies, is_ignored, is_slash, components, match_glob,
  trim_suffix, trim_prefix, cut_doublestar, match_doublestar,
}
use cloche.Docker.Ignore.Rules.{Decides, is_ignored_iff}
use cloche.Docker.Ignore.Doublestar.{match_glob-length}
use cloche.Docker.Ignore.Splits.{doublestar, CutBefore, CutBehind, CutBetween, match_glob_iff}

abbrev two_requests : List Session.Event
two_requests = connects ∷ Session.Event.begins "q1" true ∷ Session.Event.begins "q2" true ∷ []

replay-deliver_result_example :
    (get_elem?
        (deliver_result
          (record { request_id = "q2"; result = "success" })
          (Session.replay two_requests new_session)).channels
        1
      ≡ some
          (record { buffer = record { request_id = "q2"; result = "success" } ∷ []; taken = [] }))
    × All
        (λ ch. given ch ≤ 1)
        (deliver_result
          (record { request_id = "q2"; result = "success" })
          (Session.replay two_requests new_session)).channels
unfolding Session.replay Session.step Session.begin_step lookup insert
replay-deliver_result_example =
    replay-deliver_result two_requests (record { request_id = "q2"; result = "success" }) 1 refl

replay-fail_all_pending_example :
    (get_elem? (fail_all_pending (Session.replay two_requests new_session)).channels 0
      ≡ some (record { buffer = record { request_id = "q1"; result = "fail" } ∷ []; taken = [] }))
    × ((fail_all_pending (Session.replay two_requests new_session)).pending ≡ [])
unfolding Session.replay Session.step Session.begin_step lookup insert
replay-fail_all_pending_example = replay-fail_all_pending two_requests "q1" 0 refl

fail_pending_requests_lem_example :
    let p =
      one_container
        (String.◌++◌ "0123456789ab" "cdef")
        "a1:main"
        (Session.replay two_requests new_session) in
    (get_session "a1:main"
        (Pool.deliver_result "0123456789ab" (record { request_id = "q2"; result = "success" }) p)
      ≡ some (record {
        container_id = String.◌++◌ "0123456789ab" "cdef";
        session =
            deliver_result
              (record { request_id = "q2"; result = "success" })
              (Session.replay two_requests new_session);
      }))
    × (fail_pending_requests "0123456789ab" p ≡ p)
unfolding size
fail_pending_requests_lem_example =
    fail_pending_requests_lem "0123456789ab" "cdef" "a1:main"
      (Session.replay two_requests new_session) (record { request_id = "q2"; result = "success" })
      (omega arith) (omega arith) (λ e. cc)

-- A pattern without "**" matches any single component.
abbrev single_component : Bytes → Bytes → Bool
single_component pattern name = not (any is_slash name)

abbrev same_name : Bytes → Bytes
same_name name = name

abbrev ignore_file : List Bytes
ignore_file = (b'#' ∷ []) ∷ (b'a' ∷ []) ∷ (b'!' ∷ b'/' ∷ b'b' ∷ 32 ∷ []) ∷ (b'c' ∷ b'/' ∷ []) ∷ []

is_ignored_iff_example :
    (is_ignored single_component same_name (parse_clocheignore ignore_file) (b'c' ∷ []) true ≡ true)
    ↔ Decides (applies single_component same_name (b'c' ∷ []) true) (parse_clocheignore ignore_file)
is_ignored_iff_example =
    is_ignored_iff single_component same_name (b'c' ∷ []) true (parse_clocheignore ignore_file)

c_is_ignored :
    is_ignored single_component same_name (parse_clocheignore ignore_file) (b'c' ∷ []) true ≡ true
unfolding is_ignored Ignore.ignored_by applies match_glob Ignore.glob cut_doublestar
    parse_clocheignore Ignore.parse_line Ignore.rule Ignore.trim_right trim_prefix any
c_is_ignored = refl

c_file_is_kept :
    is_ignored single_component same_name (parse_clocheignore ignore_file) (b'c' ∷ []) false ≡ false
unfolding is_ignored Ignore.ignored_by applies match_glob Ignore.glob cut_doublestar
    parse_clocheignore Ignore.parse_line Ignore.rule Ignore.trim_right trim_prefix any
c_file_is_kept = refl

abbrev nested : Bytes
nested = b'a' ∷ b'/' ∷ b'*' ∷ b'*' ∷ b'/' ∷ b'b' ∷ []

match_glob_iff_example :
    ((match_glob single_component (doublestar ++ b'/' ∷ b'b' ∷ []) (b'a' ∷ b'/' ∷ b'b' ∷ []) ≡ true)
      ↔ CutBefore (single_component (b'b' ∷ [])) (components (b'a' ∷ b'/' ∷ b'b' ∷ [])))
    × ((match_glob single_component (b'a' ∷ b'/' ∷ doublestar) (b'a' ∷ b'/' ∷ b'b' ∷ []) ≡ true)
        ↔ CutBehind (single_component (b'a' ∷ [])) [] (components (b'a' ∷ b'/' ∷ b'b' ∷ [])))
    × ((match_glob single_component nested (b'a' ∷ b'/' ∷ b'b' ∷ []) ≡ true)
        ↔ CutBetween
            (single_component (b'a' ∷ []))
            (single_component (b'b' ∷ []))
            []
            (components (b'a' ∷ b'/' ∷ b'b' ∷ [])))
    × (match_glob single_component doublestar (b'a' ∷ b'/' ∷ b'b' ∷ []) ≡ true)
unfolding cut_doublestar
match_glob_iff_example =
    match_glob_iff single_component (b'a' ∷ []) (b'b' ∷ []) (b'a' ∷ b'/' ∷ b'b' ∷ []) refl refl refl
      refl

match_glob-length_example : length (components (b'a' ∷ b'/' ∷ b'b' ∷ [])) ≡ 2
unfolding cut_doublestar trim_suffix trim_prefix match_glob Ignore.glob match_doublestar components
    Ignore.any_split Ignore.join any
match_glob-length_example =
    match_glob-length single_component nested (b'a' ∷ b'/' ∷ []) (b'/' ∷ b'b' ∷ [])
      (b'a' ∷ b'/' ∷ b'b' ∷ []) refl refl refl refl refl (λ n h. ground arith) (λ n h. ground arith)
      refl
