-- ===== src/Runtime/Wake.antt =====
-- erp-runtime/src/wake/manager.rs: the timer of the embedded runtime. Of its state the deadline is
-- modelled; the channels and the hardware timer of its event loop are not.
use rust_proof.Base.{ℕ, Option, none, some, List, [], ◌∷◌, ◌≡◌, refl}
use rust_proof.U64.{saturating_add}
use rust_proof.Core.Crypto.{Crypto}
use rust_proof.Node.Contract.{NodeAction, schedule_wake, cancel_wake}
use rust_proof.Node.Engine.Wake.{timer_after}

pub data WakeCommand : Type 0 where
  schedule : ℕ → WakeCommand
  cancel : WakeCommand

abbrev pub startup_heartbeat_delay_ms : ℕ
startup_heartbeat_delay_ms = 1000

unfoldable pub startup_heartbeat_deadline_ms : ℕ → ℕ
startup_heartbeat_deadline_ms now_ms = saturating_add now_ms startup_heartbeat_delay_ms

pub record WakeManager : Type 0 where
  pub wake_at : Option ℕ

-- `WakeManager::new` at the time `now_ms`.
unfoldable pub new : ℕ → WakeManager
new now_ms = record { wake_at = some (startup_heartbeat_deadline_ms now_ms) }

unfoldable pub handle_command : WakeManager → WakeCommand → WakeManager
handle_command m (schedule at_ms) = record { wake_at = some at_ms }
handle_command m cancel = record { wake_at = none }

-- The commands of a list, in their order.
unfoldable pub handle_commands : WakeManager → List WakeCommand → WakeManager
handle_commands m [] = m
handle_commands m (command ∷ commands) = handle_commands (handle_command m command) commands

module _ ⦃c : Crypto⦄ where
  -- The commands that a runtime sends for the actions of a step.
  abbrev pub commands_of : List NodeAction → List WakeCommand
  commands_of [] = []
  commands_of (schedule_wake at_ms ∷ actions) = schedule at_ms ∷ commands_of actions
  commands_of (cancel_wake ∷ actions) = cancel ∷ commands_of actions
  commands_of (_ ∷ actions) = commands_of actions

  -- The manager is set to what the actions of a step, in their order, leave as the timer.
  pub handle_commands-timer :
      (m : WakeManager) (actions : List NodeAction)
      → (handle_commands m (commands_of actions)).wake_at ≡ timer_after m.wake_at actions
  unfolding handle_commands handle_command
  handle_commands-timer m [] = refl
  handle_commands-timer m (schedule_wake at_ms ∷ xs) =
      handle_commands-timer (record { wake_at = some at_ms }) xs
  handle_commands-timer m (cancel_wake ∷ xs) = handle_commands-timer (record { wake_at = none }) xs
  handle_commands-timer m (NodeAction.send_frame _ _ ∷ xs) = handle_commands-timer m xs
  handle_commands-timer m (NodeAction.broadcast_frame _ ∷ xs) = handle_commands-timer m xs
  handle_commands-timer m (NodeAction.persist_block _ ∷ xs) = handle_commands-timer m xs
  handle_commands-timer m (NodeAction.persist_snapshot _ _ ∷ xs) = handle_commands-timer m xs
  handle_commands-timer m (NodeAction.request_blocks _ _ _ ∷ xs) = handle_commands-timer m xs
  handle_commands-timer m (NodeAction.disconnect_peer _ ∷ xs) = handle_commands-timer m xs
  handle_commands-timer m (NodeAction.report_event _ ∷ xs) = handle_commands-timer m xs
  handle_commands-timer m (NodeAction.frame_seen _ ∷ xs) = handle_commands-timer m xs
  handle_commands-timer m (NodeAction.persist_seen _ ∷ xs) = handle_commands-timer m xs
  handle_commands-timer m (NodeAction.load_snapshot _ ∷ xs) = handle_commands-timer m xs
