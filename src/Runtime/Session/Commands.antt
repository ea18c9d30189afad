-- ===== src/Runtime/Session/Commands.antt =====
-- erp-runtime/src/network/session.rs: which command ends the wait for a sync response, and what is
-- left of the others.
use rust_proof.Base.{List, [], ◌∷◌, ◌++◌, Outcome, ok, err, ◌>>=◌}
use rust_proof.Core.Crypto.{Crypto}
use rust_proof.Node.Network.{Postcard, SyncResponse}
use rust_proof.Runtime.Network.{SessionCommand}
use rust_proof.Runtime.Session.{
  SessionError, is_response, is_other, awaited, restore_deferred_commands, channel_closed,
}

module _ ⦃c : Crypto⦄ ⦃p : Postcard⦄ where
  abbrev pub Found : Type 0
  Found = Outcome SessionError (SyncResponse × List SessionCommand)

  -- On one queue that nothing is taken from but the response.
  abbrev pub kept_before : SessionCommand → SyncResponse × List SessionCommand → Found
  kept_before command (r, others) = ok (r, command ∷ others)

  unfoldable pub next_response : List SessionCommand → Found
  next_response [] = err channel_closed
  next_response (command ∷ queue) = awaited command >>= λ what. elim what [
    | is_response r ↦ ok (r, queue)
    | is_other kept ↦ next_response queue >>= kept_before kept
  ]

  -- The deferred commands and those in the channel, as the one queue that they are.
  abbrev pub queued : SyncResponse × List SessionCommand × List SessionCommand → Found
  queued (r, deferred, channel) = ok (r, deferred ++ channel)

  abbrev restored : List SessionCommand → SyncResponse × List SessionCommand → Found
  restored retained_commands (r, others) =
      ok (r, restore_deferred_commands others retained_commands)
