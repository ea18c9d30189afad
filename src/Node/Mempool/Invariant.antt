-- ===== src/Node/Mempool/Invariant.antt =====
-- rp-node/src/mempool.rs: the invariant of the pool, and what each call does to it.
use rust_proof.Base.{
  ℕ, suc, ◌≤◌, ◌<◌, ◌≡◌, Bool, true, false, not, none, some, List, [], ◌∷◌, Bytes, arith, ok, err,
  length, take, last, All, eq_bytes, ltb, if◌then◌else◌, Option-cases, inl, inr, Bool-cases, ◌≢◌,
  zero, ltb→lt, subst, ap, ◌↔◌, ◌&&◌,
}
use rust_proof.BTreeSet.{IsOrderedSet, contains, insert, remove}
use rust_proof.BTreeSet.Laws.{
  insert-IsOrderedSet, remove-IsOrderedSet, retain-IsOrderedSet, length-insert, length-insert_new,
  contains-insert_self, contains-remove, length-remove-last, length-retain, last_after,
}
use rust_proof.Core.Crypto.{Crypto}
use rust_proof.Core.Models.{Transaction}
use rust_proof.Core.Transaction
use rust_proof.Core.Transaction.Order.{transaction_ord, fee-le}
use rust_proof.Node.Report.{fee_too_low}
use rust_proof.Node.Mempool.{
  Mempool, new, add_transaction, remove_transaction, get_pending_transactions,
}

module _ ⦃c : Crypto⦄ where
  -- The members are in order with no two equal, and there is room for them.
  pub record IsBounded (m : Mempool) : Type 0 where
    pub ordered : IsOrderedSet m.transactions
    pub fits : length m.transactions ≤ m.max_size

  pub new-IsBounded : (max_size : ℕ) → IsBounded (new max_size)
  new-IsBounded max_size = record { ordered = tt; fits = omega arith }

  -- The pool behind a call that evicts.
  evict-IsBounded :
      (m : Mempool) (tx l : Transaction)
      → IsBounded m
      → last m.transactions ≡ some l
      → IsBounded (record m { transactions = insert tx (remove l m.transactions) })
  evict-IsBounded m tx l b e = record {
    ordered = insert-IsOrderedSet tx _ (remove-IsOrderedSet l m.transactions b.ordered);
    fits = omega (
      arith,
      length-insert tx (remove l m.transactions),
      length-remove-last l m.transactions b.ordered e,
      b.fits,
    );
  }

  insert_in_room :
      (m : Mempool) (tx : Transaction)
      → IsBounded m
      → length m.transactions < m.max_size
      → IsBounded (record m { transactions = insert tx m.transactions })
  insert_in_room m tx b room = record {
    ordered = insert-IsOrderedSet tx m.transactions b.ordered;
    fits = omega (arith, length-insert tx m.transactions);
  }

  -- A call that succeeds on a pool in order and within its size leaves it so.
  pub add_transaction-IsBounded :
      (m m' : Mempool) (tx : Transaction) (added : Bool)
      → IsBounded m
      → add_transaction m tx ≡ ok (m', added)
      → IsBounded m'
  unfolding add_transaction
  add_transaction-IsBounded m m' tx added b h = elim (Bool-cases (contains tx m.transactions)) [
    | inl known ↦ let e : m ≡ m' = ground arith in subst IsBounded e b
    | inr fresh ↦ elim (Bool-cases (ltb (length m.transactions) m.max_size)) [
      | inl room ↦
          let e : record m { transactions = insert tx m.transactions } ≡ m' = ground arith in
          subst IsBounded e (insert_in_room m tx b (ltb→lt _ _ room))
      | inr full ↦ elim (Option-cases (last m.transactions)) [
        | inl e ↦ absurd (ground arith)
        | inr (l, e) ↦
            let q : record m { transactions = insert tx (remove l m.transactions) } ≡ m' =
              ground arith in
            subst IsBounded q (evict-IsBounded m tx l b e)
      ]
    ]
  ]

  pub remove_transaction-IsBounded :
      (m : Mempool) (hash : Bytes) → IsBounded m → IsBounded (remove_transaction m hash)
  unfolding remove_transaction
  remove_transaction-IsBounded m hash b =
      let keep = λ (tx : Transaction). not (eq_bytes (Transaction.hash tx) hash) in
      record {
        ordered = retain-IsOrderedSet keep m.transactions b.ordered;
        fits = omega (arith, length-retain keep m.transactions, b.fits);
      }

  -- Fees never rise along a list of transactions.
  abbrev pub FeesFall : List Transaction → Type 0
  FeesFall [] = Unit
  FeesFall (a ∷ []) = Unit
  FeesFall (a ∷ b ∷ rest) = (Transaction.fee b ≤ Transaction.fee a) × FeesFall (b ∷ rest)

  take-FeesFall : (n : ℕ) (l : List Transaction) → IsOrderedSet l → FeesFall (take n l)
  take-FeesFall zero l s = tt
  take-FeesFall (suc n) [] s = tt
  take-FeesFall (suc zero) (a ∷ l) s = tt
  take-FeesFall (suc (suc n)) (a ∷ []) s = tt
  take-FeesFall (suc (suc n)) (a ∷ b ∷ l) s = (fee-le a b s.0, take-FeesFall (suc n) (b ∷ l) s.1)

  -- What is served from a pool in order comes with the highest fees first.
  pub get_pending_transactions-FeesFall :
      (m : Mempool) (count : ℕ) → IsBounded m → FeesFall (get_pending_transactions m count)
  unfolding get_pending_transactions
  get_pending_transactions-FeesFall m count b = take-FeesFall count m.transactions b.ordered

  last_lowest :
      (l : Transaction) (xs : List Transaction)
      → IsOrderedSet xs
      → last xs ≡ some l
      → All (λ x. Transaction.fee l ≤ Transaction.fee x) xs
  last_lowest l [] s e = tt
  last_lowest l (x ∷ []) s e = let q : x ≡ l = cc in (omega (arith, ap Transaction.fee q), tt)
  last_lowest l (x ∷ y ∷ xs) s e =
      (fee-le x l (last_after x y l xs s e), last_lowest l (y ∷ xs) s.1 e)

  All-last :
      (n : ℕ) (l : Transaction) (xs : List Transaction)
      → All (λ x. n ≤ Transaction.fee x) xs
      → last xs ≡ some l
      → n ≤ Transaction.fee l
  All-last n l [] a e = cc
  All-last n l (x ∷ []) a e = let q : x ≡ l = cc in omega (arith, ap Transaction.fee q, a.0)
  All-last n l (x ∷ y ∷ xs) a e = All-last n l (y ∷ xs) a.1 e

  All-le :
      (n k : ℕ) (xs : List Transaction)
      → n ≤ k
      → All (λ x. k ≤ Transaction.fee x) xs
      → All (λ x. n ≤ Transaction.fee x) xs
  All-le n k [] h a = tt
  All-le n k (x ∷ xs) h a = (omega (arith, a.0), All-le n k xs h a.1)

  last-ne-none : (xs : List Transaction) → 0 < length xs → last xs ≢ none
  last-ne-none [] h e = absurd (omega arith)
  last-ne-none (x ∷ []) h e = cc
  last-ne-none (x ∷ y ∷ xs) h e = last-ne-none (y ∷ xs) (omega arith) e

  -- The pool has no room for `tx`, and every member pays at least as much.
  pub record IsOutbid (m : Mempool) (tx : Transaction) : Type 0 where
    pub unknown : contains tx m.transactions ≡ false
    pub full : length m.transactions ≡ m.max_size
    pub some_room : 0 < m.max_size
    pub pays_less : All (λ x. Transaction.fee tx ≤ Transaction.fee x) m.transactions

  too_low-IsOutbid :
      (m : Mempool) (tx : Transaction)
      → IsBounded m
      → add_transaction m tx ≡ err fee_too_low
      → IsOutbid m tx
  unfolding add_transaction
  too_low-IsOutbid m tx b h = elim (Option-cases (last m.transactions)) [
    | inl e ↦ absurd (ground arith)
    | inr (l, e) ↦ record {
      unknown = ground arith;
      full = ground arith;
      some_room = omega (arith, length-remove-last l m.transactions b.ordered e, b.fits);
      pays_less =
          All-le (Transaction.fee tx) (Transaction.fee l) m.transactions (ground arith)
            (last_lowest l m.transactions b.ordered e);
    }
  ]

  IsOutbid-too_low :
      (m : Mempool) (tx : Transaction) → IsOutbid m tx → add_transaction m tx ≡ err fee_too_low
  unfolding add_transaction
  IsOutbid-too_low m tx o = elim (Option-cases (last m.transactions)) [
    | inl e ↦ absurd (last-ne-none m.transactions (omega (arith, o.full, o.some_room)) e)
    | inr (l, e) ↦
        ground (
          arith,
          o.unknown,
          o.full,
          e,
          All-last (Transaction.fee tx) l m.transactions o.pays_less e,
        )
  ]

  -- A pool in order and within its size turns a transaction away for its fee exactly when it does
  -- not hold it, is full with room for at least one, and every member pays at least as much.
  pub add_transaction-too_low_iff :
      (m : Mempool) (tx : Transaction)
      → IsBounded m
      → (add_transaction m tx ≡ err fee_too_low) ↔ IsOutbid m tx
  add_transaction-too_low_iff m tx b = (too_low-IsOutbid m tx b, IsOutbid-too_low m tx)

  -- A call that succeeds on a pool in order and within its size leaves the transaction in it and
  -- returns whether it was new; the number of members grows by one if it was new and there was
  -- room, and stays the same otherwise.
  pub add_transaction-adds :
      (m m' : Mempool) (tx : Transaction) (added : Bool)
      → IsBounded m
      → add_transaction m tx ≡ ok (m', added)
      → (contains tx m'.transactions ≡ true)
        × (added ≡ not (contains tx m.transactions))
        × (length m'.transactions ≡ (
            if added && ltb (length m.transactions) m.max_size
            then suc (length m.transactions)
            else length m.transactions))
  unfolding add_transaction
  add_transaction-adds m m' tx added b h =
      let xs = m.transactions in
      elim (Option-cases (last xs)) [
        | inl e ↦ ground (arith, e, contains-insert_self tx xs, length-insert_new tx xs)
        | inr (l, e) ↦ ground (
          arith,
          e,
          contains-insert_self tx xs,
          length-insert_new tx xs,
          contains-insert_self tx (remove l xs),
          length-insert_new tx (remove l xs),
          contains-remove tx l xs b.ordered,
          length-remove-last l xs b.ordered e,
        )
      ]
