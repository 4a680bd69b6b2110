-- ===== src/Tests/Services.antt =====
-- The theorems about runs as text, the poll coordinator and the log stream on concrete data.
use Prim.Native.Nat.{◌≤◌}
use cloche.Base.{
  false, ◌≡◌, refl, inl, some, List, [], ◌∷◌, ◌++◌, All, length, get_elem?, lookup, insert, arith,
  take_at, modify,
}
use mathlib.Core.Option.{some_inj}
use cloche.Run.{Run, new_run}
use cloche.Run.Text.{
  active_steps_string, set_active_steps_from_string,
  set_active_steps_from_string-active_steps_string,
}
use cloche.Base.Text.{contains_code}
use cloche.Host.Polls
use cloche.Host.Polls.{Coordinator, new_poll_coordinator, registers, scans, triggers, answers}
use cloche.Host.Polls.Delivery.{steps-delivers_once, steps-IsUnsent, IsUnsent}
use cloche.Logstream.Broadcaster
use cloche.Logstream.Broadcaster.{
  LogLine, Broadcaster, new_broadcaster, get_history, subscribe_with_history, publishes,
}
use cloche.Logstream.Broadcaster.Open.{Open, OwnFrom, replay-Open}
use cloche.Logstream.Broadcaster.Sends.{seen}
use cloche.Logstream.Broadcaster.History.{replay-subscribe_with_history}

abbrev two_steps : Run
two_steps = record (new_run "r" "main") { active_steps = "build" ∷ "test" ∷ [] }

set_active_steps_from_string-active_steps_string_example :
    (set_active_steps_from_string (active_steps_string two_steps) (new_run "s" "main")).active_steps
    ≡ "build" ∷ "test" ∷ []
unfolding new_run contains_code
set_active_steps_from_string-active_steps_string_example =
    set_active_steps_from_string-active_steps_string two_steps (new_run "s" "main")
      ((refl, λ e. cc), ((refl, λ e. cc), tt))

abbrev asks : List Polls.Step
asks = registers "r" "ask" 10 0 ∷ scans 0 ∷ triggers 0 0 ∷ []

abbrev asked : List Polls.Step
asked = asks ++ Polls.Step.returns 5 0 (answers "approved") ∷ []

steps-delivers_once_example :
    All (λ s. length s.delivered ≤ 1) (Polls.steps asked new_poll_coordinator).heap
steps-delivers_once_example = steps-delivers_once asked

answered : All (λ s. s.delivered ≡ "approved" ∷ []) (Polls.steps asked new_poll_coordinator).heap
unfolding Polls.steps Polls.step Polls.register Polls.scan Polls.scan_keys Polls.scan_key
    Polls.visit_at Polls.visit Polls.trigger_poll Polls.session_key take_at modify lookup insert
    Polls.return_poll Polls.return_to Polls.settle_poll Polls.decision
answered = (refl, tt)

steps-IsUnsent_example : IsUnsent 0 (Polls.steps asks new_poll_coordinator)
unfolding Polls.steps Polls.step Polls.register Polls.scan Polls.scan_keys Polls.scan_key
    Polls.visit_at Polls.visit Polls.trigger_poll Polls.session_key take_at modify lookup insert
steps-IsUnsent_example = steps-IsUnsent asks 0 (inl ("r:ask", refl))

abbrev line : LogLine
line = record { timestamp = "t"; type = "log"; content = "hello"; step_name = "build" }

abbrev comes_and_goes : List Broadcaster.Event
comes_and_goes =
    Broadcaster.Event.subscribes "r"
    ∷ publishes "r" line
    ∷ Broadcaster.Event.unsubscribes "r" 0
    ∷ publishes "r" line
    ∷ []

comes_and_goes-own : OwnFrom new_broadcaster comes_and_goes
unfolding Broadcaster.step Broadcaster.subscribe Broadcaster.publish lookup insert
    Broadcaster.send_all Broadcaster.send modify
comes_and_goes-own = (
  tt,
  λ b e. (
    tt,
    λ c stepped.
        (rw (← some_inj.0 (rw (← some_inj.0 e) at stepped)) (omega arith), λ d f. (tt, λ g h. tt)),
  ),
)

replay-Open_example :
    (b : Broadcaster) × (Broadcaster.replay comes_and_goes new_broadcaster ≡ some b) × Open b
replay-Open_example = replay-Open comes_and_goes comes_and_goes-own

abbrev follows : List Broadcaster.Event
follows = publishes "r" line ∷ Broadcaster.Event.receives 0 ∷ publishes "r" line ∷ []

abbrev followed : Broadcaster
followed = record {
  runs = ("r", record { subscribers = 0 ∷ []; history = line ∷ line ∷ []; done = false }) ∷ [];
  channels = record { queue = line ∷ []; taken = line ∷ []; closed = false } ∷ [];
}

replay-subscribe_with_history_example :
    (s : Broadcaster.Subscriber) × (get_elem? followed.channels 0 ≡ some s)
    × (seen s ≡ line ∷ line ∷ [])
    × ((subscribe_with_history "r" new_broadcaster).1 ++ seen s ≡ get_history "r" followed)
unfolding Broadcaster.replay Broadcaster.step Broadcaster.publish Broadcaster.receive
    Broadcaster.subscribe subscribe_with_history lookup insert Broadcaster.send_all Broadcaster.send
    modify Open
replay-subscribe_with_history_example =
    replay-subscribe_with_history follows "r" new_broadcaster followed (λ i. omega arith) refl
      (tt, (tt, (tt, tt))) (omega arith) refl
