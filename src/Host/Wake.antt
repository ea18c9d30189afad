-- ===== src/Host/Wake.antt =====
-- rp-runtime/src/main.rs: `run_wake_loop`, which ticks when the timer has run off. What the clock and
-- the channel of commands do is an argument; the loop ends when that channel is closed.
pub mod Live
use rust_proof.Base.{
  ℕ, Bool, Option, none, some, List, [], ◌∷◌, Outcome, ok, err, panic, ◌>>=◌, if◌then◌else◌,
}
use rust_proof.U64.{saturating_add, saturating_sub}
use rust_proof.Core.Crypto.{Crypto}
use rust_proof.Host.Errors.{RuntimeError, event_send}
use rust_proof.Host.Contract.{WakeCommand, schedule, cancel, RuntimeEvent, tick}

abbrev pub startup_heartbeat_delay_ms : ℕ
startup_heartbeat_delay_ms = 1000

-- `next_tick_at_ms` at the start of the loop.
abbrev pub first_tick_at_ms : ℕ → Option ℕ
first_tick_at_ms now_ms = some (saturating_add now_ms startup_heartbeat_delay_ms)

-- How long the loop sleeps if no command comes.
abbrev pub sleep_for_ms : ℕ → ℕ → ℕ
sleep_for_ms deadline_ms now_ms = saturating_sub deadline_ms now_ms

-- What `select!` sees first: a command, or the end of the sleep, with the time then.
pub data WakeInput : Type 0 where
  command_received : WakeCommand → WakeInput
  slept_until : ℕ → WakeInput

-- `next_tick_at_ms` after a command.
abbrev pub set_by : WakeCommand → Option ℕ
set_by (schedule at_ms) = some at_ms
set_by cancel = none

module _ ⦃c : Crypto⦄ where
  abbrev pub Woken : Type 0
  Woken = Outcome RuntimeError (Option ℕ × List RuntimeEvent)

  -- One turn of the loop. Without a deadline it only waits for a command.
  unfoldable pub wake_turn : Bool → Option ℕ → WakeInput → Woken
  wake_turn is_open next_tick_at_ms (command_received command) = ok (set_by command, [])
  wake_turn is_open (some deadline_ms) (slept_until now_ms) =
      if is_open then ok (none, tick now_ms ∷ []) else err event_send
  wake_turn is_open none (slept_until now_ms) = ok (none, [])
