-- ===== src/Logstream/Broadcaster.antt =====
-- internal/logstream/broadcaster.go. A `*Subscriber` is an index into `channels`. Every operation holds
-- the mutex, so a list of events is an interleaving of the callers and the readers of the channels.
pub mod Open
pub mod History
pub mod Sends
mod Follows
use cloche.Base.{
  ℕ, zero, suc, ◌+◌, String, Bool, true, false, not, Option, none, some, List, [], ◌∷◌, ◌++◌, ◌==◌,
  if◌then◌else◌, ltb, eqb, Dict, lookup, insert, length, get_elem?, modify,
}

pub record LogLine : Type 0 where
  pub timestamp : String
  pub type : String
  pub content : String
  pub step_name : String

-- The buffer of the channel, what its reader has taken from it, and whether it is closed.
pub record Subscriber : Type 0 where
  pub queue : List LogLine
  pub taken : List LogLine
  pub closed : Bool

pub record RunBroadcast : Type 0 where
  pub subscribers : List ℕ
  pub history : List LogLine
  pub done : Bool

pub record Broadcaster : Type 0 where
  pub runs : Dict RunBroadcast
  pub channels : List Subscriber

abbrev pub buffer_size : ℕ
buffer_size = 256

-- `NewBroadcaster`
abbrev pub new_broadcaster : Broadcaster
new_broadcaster = record { runs = []; channels = [] }

abbrev pub no_broadcast : RunBroadcast
no_broadcast = record { subscribers = []; history = []; done = false }

abbrev pub broadcast_or_new : Option RunBroadcast → RunBroadcast
broadcast_or_new none = no_broadcast
broadcast_or_new (some rb) = rb

abbrev pub put : String → RunBroadcast → Broadcaster → Broadcaster
put run_id rb b = record b { runs = insert run_id rb b.runs }

-- `Start`
unfoldable pub start : String → Broadcaster → Broadcaster
start run_id b = put run_id (broadcast_or_new (lookup run_id b.runs)) b

abbrev pub new_subscriber : Bool → Subscriber
new_subscriber closed = record { queue = []; taken = []; closed = closed }

abbrev pub with_subscriber : ℕ → RunBroadcast → RunBroadcast
with_subscriber i rb = if rb.done then rb else record rb { subscribers = rb.subscribers ++ i ∷ [] }

-- `Subscribe`; the new subscriber is the last channel
unfoldable pub subscribe : String → Broadcaster → Broadcaster
subscribe run_id b =
    let rb = broadcast_or_new (lookup run_id b.runs) in
    record {
      runs = insert run_id (with_subscriber (length b.channels) rb) b.runs;
      channels = b.channels ++ new_subscriber rb.done ∷ [];
    }

-- `SubscribeWithHistory`: the history before the subscription comes with it
unfoldable pub subscribe_with_history : String → Broadcaster → Broadcaster × List LogLine
subscribe_with_history run_id b =
    (subscribe run_id b, (broadcast_or_new (lookup run_id b.runs)).history)

unfoldable pub remove_first : ℕ → List ℕ → List ℕ
remove_first i [] = []
remove_first i (j ∷ js) = let rest = remove_first i js in if eqb j i then js else j ∷ rest

abbrev pub close : Subscriber → Subscriber
close s = record s { closed = true }

-- `Unsubscribe`
unfoldable pub unsubscribe : String → ℕ → Broadcaster → Broadcaster
unsubscribe run_id i b = elim (lookup run_id b.runs) [
  | none ↦ b
  | some rb ↦ record {
    runs = insert run_id (record rb { subscribers = remove_first i rb.subscribers }) b.runs;
    channels = modify i close b.channels;
  }
]

-- A line for which the buffer has no room is dropped.
abbrev pub push : LogLine → Subscriber → Subscriber
push line s =
    if ltb (length s.queue) buffer_size then record s { queue = s.queue ++ line ∷ [] } else s

-- a send on a closed channel panics: `none`
unfoldable pub send : LogLine → ℕ → List Subscriber → Option (List Subscriber)
send line i channels = elim (get_elem? channels i) [
  | none ↦ some channels
  | some s ↦ if s.closed then none else some (modify i (push line) channels)
]

unfoldable pub send_all : LogLine → List ℕ → List Subscriber → Option (List Subscriber)
send_all line [] channels = some channels
send_all line (i ∷ is) channels = elim (send line i channels) [
  | none ↦ none
  | some channels' ↦ send_all line is channels'
]

-- `Publish`
unfoldable pub publish : String → LogLine → Broadcaster → Option Broadcaster
publish run_id line b = elim (lookup run_id b.runs) [
  | none ↦ some b
  | some rb ↦ elim (send_all line rb.subscribers b.channels) [
    | none ↦ none
    | some channels ↦ some (record {
      runs = insert run_id (record rb { history = rb.history ++ line ∷ [] }) b.runs;
      channels = channels;
    })
  ]
]

unfoldable pub close_all : List ℕ → List Subscriber → List Subscriber
close_all [] channels = channels
close_all (i ∷ is) channels = close_all is (modify i close channels)

-- `Finish`
unfoldable pub finish : String → Broadcaster → Broadcaster
finish run_id b = elim (lookup run_id b.runs) [
  | none ↦ b
  | some rb ↦ record {
    runs = insert run_id (record { subscribers = []; history = []; done = true }) b.runs;
    channels = close_all rb.subscribers b.channels;
  }
]

-- `GetHistory`
unfoldable pub get_history : String → Broadcaster → List LogLine
get_history run_id b = (broadcast_or_new (lookup run_id b.runs)).history

-- `IsActive`
unfoldable pub is_active : String → Broadcaster → Bool
is_active run_id b = elim (lookup run_id b.runs) [ none ↦ false | some rb ↦ not rb.done ]

unfoldable pub take_line : Subscriber → List LogLine → Subscriber
take_line s [] = s
take_line s (line ∷ rest) = record s { queue = rest; taken = s.taken ++ line ∷ [] }

-- a reader takes a line from its channel
unfoldable pub receive : ℕ → Broadcaster → Broadcaster
unfolding take_line
receive i b = record b { channels = modify i (λ s. take_line s s.queue) b.channels }

pub data Event : Type 0 where
  starts subscribes finishes : String → Event
  unsubscribes : String → ℕ → Event
  publishes : String → LogLine → Event
  receives : ℕ → Event

unfoldable pub step : Event → Broadcaster → Option Broadcaster
step (starts run_id) b = some (start run_id b)
step (subscribes run_id) b = some (subscribe run_id b)
step (finishes run_id) b = some (finish run_id b)
step (unsubscribes run_id i) b = some (unsubscribe run_id i b)
step (publishes run_id line) b = publish run_id line b
step (receives i) b = some (receive i b)

-- The state behind a list of events, or `none` after a panic.
unfoldable pub replay : List Event → Broadcaster → Option Broadcaster
replay [] b = some b
replay (e ∷ es) b = elim (step e b) [ none ↦ none | some b' ↦ replay es b' ]
