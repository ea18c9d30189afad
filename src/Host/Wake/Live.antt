-- ===== src/Host/Wake/Live.antt =====
-- rp-runtime/src/main.rs and rp-runtime/src/runtime/manager.rs: the wake loop and the node manager
-- together, with the two channels between them.
use rust_proof.Base.{ℕ, ◌≤◌, ◌≡◌, Bool, true, Option, none, some, List, [], ◌∷◌, ◌++◌, ok}
use mathlib.Core.List.{Memᴰ}
use rust_proof.Core.Crypto.{Crypto}
use rust_proof.Node.Network.{Postcard}
use rust_proof.Node.Engine.{NodeEngine}
use rust_proof.Host.Errors.{ChannelKind}
use rust_proof.Host.Contract.{RuntimeEvent, tick, WakeCommand}
use rust_proof.Host.Nodes.{SentCommand, to_network, to_storage, to_wake, turn}
use rust_proof.Host.Nodes.Timer.{IsSettled}
use rust_proof.Host.Wake.{first_tick_at_ms, wake_turn, slept_until, command_received, set_by}

-- The timer is set, and its time has come.
abbrev pub IsDue : Option ℕ → ℕ → Type 0
IsDue none now_ms = ⊥
IsDue (some deadline_ms) now_ms = deadline_ms ≤ now_ms

module _ ⦃c : Crypto⦄ ⦃p : Postcard⦄ where
  -- The wake commands among some commands.
  abbrev pub wakes : List SentCommand → List WakeCommand
  wakes [] = []
  wakes (to_network command ∷ sent) = wakes sent
  wakes (to_storage command ∷ sent) = wakes sent
  wakes (to_wake command ∷ sent) = command ∷ wakes sent

  -- What the wake loop makes of a timer when it has taken some commands.
  abbrev pub set_all : Option ℕ → List WakeCommand → Option ℕ
  set_all timer [] = timer
  set_all timer (command ∷ commands) = set_all (set_by command) commands

  -- The timer of the wake loop, the engine, the events that wait for the node manager, and the wake
  -- commands that wait for the wake loop, in every interleaving of the two: an event arrives from
  -- any manager; the node manager takes the first event and sends the commands of its turn; the wake
  -- loop takes the first command, or its timer runs off and it sends a tick. The clock then shows at
  -- least the time that the timer was set to: the loop does not check this, it sleeps that long, so
  -- that it holds if the clock is not set back. At the start the timer is set to the heartbeat.
  pub data Reach (start : NodeEngine)
      : Option ℕ → NodeEngine → List RuntimeEvent → List WakeCommand → Type 0 where
    starts : (now_ms : ℕ) → Reach start (first_tick_at_ms now_ms) start [] []
    arrives :
        {timer : Option ℕ} {e : NodeEngine} {events : List RuntimeEvent}
        {commands : List WakeCommand} (event : RuntimeEvent)
        → Reach start timer e events commands
        → Reach start timer e (events ++ event ∷ []) commands
    takes_event :
        {timer : Option ℕ} {e e' : NodeEngine} {event : RuntimeEvent} {events : List RuntimeEvent}
        {commands : List WakeCommand} {sent : List SentCommand} (is_open : ChannelKind → Bool)
        → Reach start timer e (event ∷ events) commands
        → turn is_open e event ≡ ok (e', sent)
        → Reach start timer e' events (commands ++ wakes sent)
    takes_command :
        {timer left : Option ℕ} {e : NodeEngine} {events : List RuntimeEvent}
        {command : WakeCommand} {commands : List WakeCommand}
        → Reach start timer e events (command ∷ commands)
        → wake_turn true timer (command_received command) ≡ ok (left, [])
        → Reach start left e events commands
    runs_off :
        {timer left : Option ℕ} {e : NodeEngine} {events : List RuntimeEvent}
        {commands : List WakeCommand} (now_ms : ℕ)
        → Reach start timer e events commands
        → wake_turn true timer (slept_until now_ms) ≡ ok (left, tick now_ms ∷ [])
        → IsDue timer now_ms
        → Reach start left e (events ++ tick now_ms ∷ []) commands

  -- A tick that is not before the deadline waits.
  abbrev pub IsTicking : ℕ → List RuntimeEvent → Type 0
  IsTicking deadline_ms events = (now_ms : ℕ) × (deadline_ms ≤ now_ms) × Memᴰ (tick now_ms) events

  -- The timer that the waiting commands lead to is settled; or nothing is scheduled; or the timer has
  -- run off, and its tick waits.
  data IsAwake (timer : Option ℕ) (e : NodeEngine) (events : List RuntimeEvent) : Type 0 where
    settled : IsSettled timer e → IsAwake timer e events
    idle : IsSettled none e → IsAwake timer e events
    ticking :
        (deadline_ms : ℕ)
        → IsSettled (some deadline_ms) e
        → IsTicking deadline_ms events
        → IsAwake timer e events
