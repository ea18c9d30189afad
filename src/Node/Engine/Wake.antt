-- ===== src/Node/Engine/Wake.antt =====
-- rp-node/src/node_engine.rs: `sync_wake_action`, the deadlines of the requests and the runtime's
-- timer.
use Prim.Native.Nat.{min}
use mathlib.Core.List.{Memᴰ}
use rust_proof.Base.{
  subst, ℕ, ◌≤◌, ◌<◌, ◌≡◌, refl, ap, sym, inl, inr, true, Option, none, some, List, [], ◌∷◌, ◌++◌,
  arith, ltb, All, Bool-cases, Option-cases,
}
use rust_proof.Core.Crypto.{Crypto}
use rust_proof.Node.Contract.{NodeAction, schedule_wake, cancel_wake}
use rust_proof.Node.Engine.{PendingRequest, NodeEngine, next_deadline, same_time, sync_wake_action}
use rust_proof.Node.Engine.Step.{with_wake}

-- What a runtime's timer is set to behind some actions.
module _ ⦃c : Crypto⦄ where
  abbrev pub timer_after : Option ℕ → List NodeAction → Option ℕ
  timer_after timer [] = timer
  timer_after timer (schedule_wake at_ms ∷ actions) = timer_after (some at_ms) actions
  timer_after timer (cancel_wake ∷ actions) = timer_after none actions
  timer_after timer (_ ∷ actions) = timer_after timer actions

  -- The time lies below every deadline of the requests.
  abbrev pub IsBefore : ℕ → List PendingRequest → Type 0
  IsBefore t requests = All (λ r. t < r.deadline_ms) requests

  -- Some request has this deadline, and none an earlier one.
  pub data IsFirstDeadline (d : ℕ) (requests : List PendingRequest) : Type 0 where
    first_deadline :
        (r : PendingRequest)
        → Memᴰ r requests
        → r.deadline_ms ≡ d
        → All (λ q. d ≤ q.deadline_ms) requests
        → IsFirstDeadline d requests

  pub same_time-eq : (a b : Option ℕ) → same_time a b ≡ true → a ≡ b
  same_time-eq none none h = refl
  same_time-eq none (some b) h = cc
  same_time-eq (some a) none h = cc
  same_time-eq (some a) (some b) h = ap some (ground arith)

  pub timer-append :
      (timer : Option ℕ) (xs ys : List NodeAction)
      → timer_after timer (xs ++ ys) ≡ timer_after (timer_after timer xs) ys
  timer-append timer [] ys = refl
  timer-append timer (schedule_wake at_ms ∷ xs) ys = timer-append (some at_ms) xs ys
  timer-append timer (cancel_wake ∷ xs) ys = timer-append none xs ys
  timer-append timer (NodeAction.send_frame _ _ ∷ xs) ys = timer-append timer xs ys
  timer-append timer (NodeAction.broadcast_frame _ ∷ xs) ys = timer-append timer xs ys
  timer-append timer (NodeAction.persist_block _ ∷ xs) ys = timer-append timer xs ys
  timer-append timer (NodeAction.persist_snapshot _ _ ∷ xs) ys = timer-append timer xs ys
  timer-append timer (NodeAction.request_blocks _ _ _ ∷ xs) ys = timer-append timer xs ys
  timer-append timer (NodeAction.disconnect_peer _ ∷ xs) ys = timer-append timer xs ys
  timer-append timer (NodeAction.report_event _ ∷ xs) ys = timer-append timer xs ys
  timer-append timer (NodeAction.frame_seen _ ∷ xs) ys = timer-append timer xs ys
  timer-append timer (NodeAction.persist_seen _ ∷ xs) ys = timer-append timer xs ys
  timer-append timer (NodeAction.load_snapshot _ ∷ xs) ys = timer-append timer xs ys

  -- Without requests there is no deadline.
  pub next_deadline-none :
      (requests : List PendingRequest) → next_deadline requests ≡ none → requests ≡ []
  unfolding next_deadline
  next_deadline-none [] h = refl
  next_deadline-none (r ∷ rs) h = ground arith

  earlier :
      (d f : ℕ) (requests : List PendingRequest)
      → f ≤ d
      → All (λ q. d ≤ q.deadline_ms) requests
      → All (λ q. f ≤ q.deadline_ms) requests
  earlier d f [] le a = tt
  earlier d f (r ∷ rs) le a = (omega (arith, a.0), earlier d f rs le a.1)

  pub next_deadline-first :
      (requests : List PendingRequest) (d : ℕ)
      → next_deadline requests ≡ some d
      → IsFirstDeadline d requests
  unfolding next_deadline
  next_deadline-first [] d h = cc
  next_deadline-first (r ∷ rs) d h = elim (Option-cases (next_deadline rs)) [
    | inl q ↦
        rw (next_deadline-none rs q)
          (first_deadline r (Memᴰ.head refl) (ground arith) (ground arith, tt))
    | inr (f, q) ↦
        let smaller : d ≡ min r.deadline_ms f = ground arith in
        elim (next_deadline-first rs f q) [
          | first_deadline x known e a ↦ elim (Bool-cases (ltb r.deadline_ms f)) [
            | inl lt ↦
                first_deadline r (Memᴰ.head refl) (ground arith)
                  (ground arith, earlier f d rs (ground arith) a)
            | inr ge ↦
                first_deadline x (Memᴰ.tail known) (ground arith)
                  (ground arith, earlier f d rs (ground arith) a)
          ]
        ]
  ]

  -- The first deadline of the requests, or nothing exactly if there are none.
  abbrev pub IsTimerFor : Option ℕ → List PendingRequest → Type 0
  IsTimerFor none requests = requests ≡ []
  IsTimerFor (some d) requests = IsFirstDeadline d requests

  next_deadline-IsTimerFor :
      (requests : List PendingRequest) → IsTimerFor (next_deadline requests) requests
  next_deadline-IsTimerFor requests = elim (Option-cases (next_deadline requests)) [
    | inl q ↦ subst (λ t. IsTimerFor t requests) (sym q) (next_deadline-none requests q)
    | inr (d, q) ↦ subst (λ t. IsTimerFor t requests) (sym q) (next_deadline-first requests d q)
  ]

  -- What `sync_wake_action` leaves, and what it tells the runtime.
  pub with_wake-timer :
      (e : NodeEngine) (actions : List NodeAction) (timer : Option ℕ)
      → timer_after timer actions ≡ e.scheduled_wake_at_ms
      → (timer_after timer ((with_wake (e, actions)).1)
          ≡ (with_wake (e, actions)).0.scheduled_wake_at_ms)
        × IsTimerFor
            (with_wake (e, actions)).0.scheduled_wake_at_ms
            (with_wake (e, actions)).0.pending_requests
  unfolding with_wake sync_wake_action
  with_wake-timer e actions timer h =
      let first = next_deadline-IsTimerFor e.pending_requests in
      elim (Bool-cases (same_time (next_deadline e.pending_requests) e.scheduled_wake_at_ms)) [
        | inl same ↦
            let q = same_time-eq (next_deadline e.pending_requests) e.scheduled_wake_at_ms same in
            (ground arith, ground arith)
        | inr differs ↦ elim (Option-cases (next_deadline e.pending_requests)) [
          | inl q ↦
              let told = timer-append timer actions (cancel_wake ∷ []) in
              (ground arith, ground arith)
          | inr (d, q) ↦
              let told = timer-append timer actions (schedule_wake d ∷ []) in
              (ground arith, ground arith)
        ]
      ]

  -- All else of the engine stays.
  pub with_wake-keeps :
      (e : NodeEngine) (actions : List NodeAction)
      → ((with_wake (e, actions)).0.pending_requests ≡ e.pending_requests)
        × ((with_wake (e, actions)).0.current_time_ms ≡ e.current_time_ms)
        × ((with_wake (e, actions)).0.peers ≡ e.peers)
        × ((with_wake (e, actions)).0.pending_blocks ≡ e.pending_blocks)
        × ((with_wake (e, actions)).0.blockchain ≡ e.blockchain)
  unfolding with_wake sync_wake_action
  with_wake-keeps e actions =
      elim (Bool-cases (same_time (next_deadline e.pending_requests) e.scheduled_wake_at_ms)) [
        | inl same ↦ (ground arith, ground arith, ground arith, ground arith, ground arith)
        | inr differs ↦ (ground arith, ground arith, ground arith, ground arith, ground arith)
      ]
