-- ===== src/Host/Nodes/Timer.antt =====
-- rp-runtime/src/runtime/manager.rs: the wake commands that the node manager sends.
use rust_proof.Base.{
  ℕ, ◌≡◌, refl, sym, ap, ◌∙◌, subst, inl, inr, Bool, Option, none, some, List, [], ◌∷◌, ◌++◌, Bytes,
  arith, ok, ◌>>=◌, >>=-eq-ok, ok-injective, Bool-cases, Outcome-cases, eq_bytes,
}
use rust_proof.Core.Crypto.{Crypto}
use rust_proof.Core.Models.{Block}
use rust_proof.Core.Block
use rust_proof.Core.State.Merkle.{compute_state_root}
use rust_proof.Core.State.Codec
use rust_proof.Node.Report.{invalid_startup_snapshot, startup_root_mismatch, startup_restored}
use rust_proof.Node.Blockchain.{Blockchain, restore_head}
use rust_proof.Node.Network.{Postcard}
use rust_proof.Node.Contract.{
  NodeInput, NodeAction, broadcast_frame, disconnect_peer, frame_seen, load_snapshot, persist_block,
  persist_seen, persist_snapshot, report_event, request_blocks, schedule_wake, cancel_wake,
  send_frame,
}
use rust_proof.Node.Engine.{NodeEngine, Effect}
use rust_proof.Node.Engine.Step.{step, restore_latest_snapshot, reported}
use rust_proof.Node.Engine.Wake.{timer_after, timer-append, IsTimerFor}
use rust_proof.Node.Engine.Timer.{step-timer}
use rust_proof.Host.Errors.{ChannelKind}
use rust_proof.Host.Contract.{
  RuntimeEvent, tick, peer_connected, peer_disconnected, frame_received, storage_loaded,
  latest_snapshot_loaded,
}
use rust_proof.Host.Wake.{set_by}
use rust_proof.Host.Nodes.{
  SentCommand, to_network, to_storage, to_wake, handle_action, handle_actions, take_event, turn,
  turns,
}

module _ ⦃c : Crypto⦄ where
  -- A timer after the wake commands among some commands.
  abbrev pub timer_set : Option ℕ → List SentCommand → Option ℕ
  timer_set timer [] = timer
  timer_set timer (to_network command ∷ sent) = timer_set timer sent
  timer_set timer (to_storage command ∷ sent) = timer_set timer sent
  timer_set timer (to_wake command ∷ sent) = timer_set (set_by command) sent

  timer_set-append :
      (xs ys : List SentCommand) (timer : Option ℕ)
      → timer_set timer (xs ++ ys) ≡ timer_set (timer_set timer xs) ys
  timer_set-append [] ys timer = refl
  timer_set-append (to_network command ∷ xs) ys timer = timer_set-append xs ys timer
  timer_set-append (to_storage command ∷ xs) ys timer = timer_set-append xs ys timer
  timer_set-append (to_wake command ∷ xs) ys timer = timer_set-append xs ys (set_by command)

  handle_action-timer :
      (is_open : ChannelKind → Bool) (action : NodeAction) (sent : List SentCommand)
      (timer : Option ℕ)
      → handle_action is_open action ≡ ok sent
      → timer_set timer sent ≡ timer_after timer (action ∷ [])
  unfolding handle_action
  handle_action-timer is_open (broadcast_frame frame) sent timer h = ground arith
  handle_action-timer is_open (disconnect_peer peer) sent timer h = ground arith
  handle_action-timer is_open (frame_seen peer) sent timer h = ground arith
  handle_action-timer is_open (load_snapshot k) sent timer h = ground arith
  handle_action-timer is_open (persist_block b) sent timer h = ground arith
  handle_action-timer is_open (persist_seen persist_type) sent timer h = ground arith
  handle_action-timer is_open (persist_snapshot k bytes) sent timer h = ground arith
  handle_action-timer is_open (report_event message) sent timer h = ground arith
  handle_action-timer is_open (request_blocks peer from_height to_height) sent timer h =
      ground arith
  handle_action-timer is_open (schedule_wake at_ms) sent timer h = ground arith
  handle_action-timer is_open cancel_wake sent timer h = ground arith
  handle_action-timer is_open (send_frame peer frame) sent timer h = ground arith

  handle_actions-timer :
      (is_open : ChannelKind → Bool) (actions : List NodeAction) (sent : List SentCommand)
      (timer : Option ℕ)
      → handle_actions is_open actions ≡ ok sent
      → timer_set timer sent ≡ timer_after timer actions
  unfolding handle_actions
  handle_actions-timer is_open [] sent timer h = ground arith
  handle_actions-timer is_open (action ∷ actions) sent timer h =
      let (first, called, go) = >>=-eq-ok (handle_action is_open action) _ h in
      let (rest, called', go') = >>=-eq-ok (handle_actions is_open actions) _ go in
      let whole : first ++ rest ≡ sent = ok-injective go' in
      let at_first = handle_action-timer is_open action first timer called in
      let at_rest = handle_actions-timer is_open actions rest (timer_set timer first) called' in
      subst (λ xs. timer_set timer xs ≡ timer_after timer (action ∷ actions)) whole
        (timer_set-append first rest timer
          ∙ at_rest
          ∙ ap (λ t. timer_after t actions) at_first
          ∙ sym (timer-append timer (action ∷ []) actions))

  -- The timer is set to what the engine has scheduled, and that is its first deadline.
  pub record IsSettled (timer : Option ℕ) (e : NodeEngine) : Type 0 where
    pub scheduled : timer ≡ e.scheduled_wake_at_ms
    pub first : IsTimerFor e.scheduled_wake_at_ms e.pending_requests

  -- Of the engine that is settled, the tree does not matter.
  restored_IsSettled :
      (timer : Option ℕ) (e : NodeEngine) (bc : Blockchain)
      → IsSettled timer e
      → IsSettled timer (record e { blockchain = bc })
  restored_IsSettled timer e bc i = record { scheduled = i.scheduled; first = i.first }

  IsSettled-by :
      (timer : Option ℕ) (e1 e' : NodeEngine) (xs actions : List NodeAction)
      → IsSettled timer e1
      → timer_after timer xs ≡ timer
      → ◌≡◌ {A = Effect} (e1, xs) (e', actions)
      → IsSettled (timer_after timer actions) e'
  IsSettled-by timer e1 e' xs actions i silent same =
      subst (λ (done : Effect). IsSettled (timer_after timer done.1) done.0) same (rw silent i)

  restore_latest_snapshot-timer :
      (e e' : NodeEngine) (b : Option Block) (bytes : Option Bytes) (actions : List NodeAction)
      (timer : Option ℕ)
      → IsSettled timer e
      → restore_latest_snapshot e b bytes ≡ ok (e', actions)
      → IsSettled (timer_after timer actions) e'
  unfolding restore_latest_snapshot
  restore_latest_snapshot-timer e e' none bytes actions timer i h =
      subst (λ (done : Effect). IsSettled (timer_after timer done.1) done.0) (ok-injective h) i
  restore_latest_snapshot-timer e e' (some b) none actions timer i h =
      subst (λ (done : Effect). IsSettled (timer_after timer done.1) done.0) (ok-injective h) i
  restore_latest_snapshot-timer e e' (some b) (some bytes) actions timer i h =
      elim (Outcome-cases (Codec.from_bytes bytes)) [
        | inr (inr q) ↦ absurd (ground (arith, q, h))
        | inr (inl (why, q)) ↦
            IsSettled-by timer e e' (reported invalid_startup_snapshot) actions i refl
              (ok-injective (rw (q, restore_latest_snapshot) at h))
        | inl (state, q) ↦
            elim (Bool-cases (eq_bytes (Block.state_root b) (compute_state_root state))) [
              | inl same ↦
                  IsSettled-by timer (record e { blockchain = restore_head e.blockchain b state })
                    e' (reported startup_restored) actions (restored_IsSettled timer e _ i) refl
                    (ok-injective (rw (q, same, restore_latest_snapshot) at h))
              | inr differs ↦
                  IsSettled-by timer e e' (reported startup_root_mismatch) actions i refl
                    (ok-injective (rw (q, differs, restore_latest_snapshot) at h))
            ]
      ]

module _ ⦃c : Crypto⦄ ⦃p : Postcard⦄ where
  stepped :
      (e e' : NodeEngine) (input : NodeInput) (actions : List NodeAction) (timer : Option ℕ)
      → IsSettled timer e
      → step e input ≡ ok (e', actions)
      → IsSettled (timer_after timer actions) e'
  stepped e e' input actions timer i h =
      let (scheduled, first) = step-timer e e' input actions timer i.scheduled h in
      record { scheduled = scheduled; first = first }

  take_event-timer :
      (e e' : NodeEngine) (event : RuntimeEvent) (actions : List NodeAction) (timer : Option ℕ)
      → IsSettled timer e
      → take_event e event ≡ ok (e', actions)
      → IsSettled (timer_after timer actions) e'
  unfolding take_event
  take_event-timer e e' (latest_snapshot_loaded b bytes) actions timer i h =
      restore_latest_snapshot-timer e e' b bytes actions timer i h
  take_event-timer e e' (tick now_ms) actions timer i h =
      stepped e e' (NodeInput.tick now_ms) actions timer i h
  take_event-timer e e' (peer_connected peer) actions timer i h =
      stepped e e' (NodeInput.connected peer) actions timer i h
  take_event-timer e e' (peer_disconnected peer) actions timer i h =
      stepped e e' (NodeInput.disconnected peer) actions timer i h
  take_event-timer e e' (frame_received peer frame) actions timer i h =
      stepped e e' (NodeInput.frame_received peer frame) actions timer i h
  take_event-timer e e' (storage_loaded k bytes) actions timer i h =
      stepped e e' (NodeInput.storage_loaded k bytes) actions timer i h

  pub turn-timer :
      (is_open : ChannelKind → Bool) (e e' : NodeEngine) (event : RuntimeEvent)
      (sent : List SentCommand) (timer : Option ℕ)
      → IsSettled timer e
      → turn is_open e event ≡ ok (e', sent)
      → IsSettled (timer_set timer sent) e'
  unfolding turn
  turn-timer is_open e e' event sent timer i h = elim (Outcome-cases (take_event e event)) [
    | inr (inr q) ↦ absurd (ground (arith, q, h))
    | inr (inl (never, q)) ↦ absurd never
    | inl ((e1, actions), q) ↦
        let opened : (handle_actions is_open actions >>= λ xs. ok (e1, xs)) ≡ ok (e', sent) =
          rw (q, turn) at h in
        let (xs, called, go) = >>=-eq-ok (handle_actions is_open actions) _ opened in
        let now = take_event-timer e e1 event actions timer i q in
        let told = handle_actions-timer is_open actions xs timer called in
        subst (λ (done : NodeEngine × List SentCommand). IsSettled (timer_set timer done.1) done.0)
          (ok-injective go) (rw told now)
  ]

  -- If a timer is set to what the engine has scheduled, which is its first deadline, then it is so
  -- behind every sequence of events that the node manager gets through, when the timer follows the
  -- wake commands that the manager has sent, in their order.
  pub turns-IsSettled :
      (is_open : ChannelKind → Bool) (events : List RuntimeEvent) (e e' : NodeEngine)
      (sent : List SentCommand) (timer : Option ℕ)
      → IsSettled timer e
      → turns is_open e events ≡ ok (e', sent)
      → IsSettled (timer_set timer sent) e'
  unfolding turns
  turns-IsSettled is_open [] e e' sent timer i h =
      subst (λ (done : NodeEngine × List SentCommand). IsSettled (timer_set timer done.1) done.0)
        (ok-injective h) i
  turns-IsSettled is_open (event ∷ events) e e' sent timer i h =
      let ((e1, xs), called, go) = >>=-eq-ok (turn is_open e event) _ h in
      let ((e2, ys), called', go') = >>=-eq-ok (turns is_open e1 events) _ go in
      let now = turn-timer is_open e e1 event xs timer i called in
      let then_on = turns-IsSettled is_open events e1 e2 ys (timer_set timer xs) now called' in
      subst (λ (done : NodeEngine × List SentCommand). IsSettled (timer_set timer done.1) done.0)
        (ok-injective go') (rw (timer_set-append xs ys timer) then_on)
