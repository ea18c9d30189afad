-- ===== src/Runtime/Session/Identify/Total.antt =====
-- erp-runtime/src/network/protocol/identify.rs: the reader comes to an end on all payloads.
use rust_proof.Base.{
  ℕ, zero, suc, ◌≤◌, ◌≡◌, ◌≢◌, refl, Option, none, some, [], ◌∷◌, Bytes, ok, panic, length, arith,
  inl, inr, Option-cases, Outcome-cases, subst, Bool, true, false, if◌then◌else◌, ◌==◌,
}
use rust_proof.Runtime.Session.Identify.{
  Protobuf, IdentifyMessage, empty_message, Field, with_value, unchanged, read_field, read_or,
  read_fields, from_reader,
}

module _ ⦃b : Protobuf⦄ where
  -- A field is read or refused, and leaves no more than there was.
  record IsReading (stream : Bytes) (field : Field) : Type 0 where
    returns : field ≢ panic
    shorter :
        (m : IdentifyMessage) (rest : Bytes) → field ≡ ok (m, rest) → length rest ≤ length stream

  with_value-IsReading :
      (set : Bytes → IdentifyMessage) (stream : Bytes) (read : Option (Bytes × Bytes))
      → ((value rest : Bytes) → read ≡ some (value, rest) → length rest ≤ length stream)
      → IsReading stream (with_value set read)
  with_value-IsReading set stream none takes = record {
    returns = λ e. absurd cc;
    shorter = λ m rest e. absurd cc;
  }
  with_value-IsReading set stream (some (value, rest)) takes = record {
    returns = λ e. absurd cc;
    shorter = λ m rest' e.
        let same : rest ≡ rest' = cc in
        subst (λ r. length r ≤ length stream) same (takes value rest refl);
  }

  unchanged-IsReading :
      (message : IdentifyMessage) (stream : Bytes) (read : Option Bytes)
      → ((rest : Bytes) → read ≡ some rest → length rest ≤ length stream)
      → IsReading stream (unchanged message read)
  unchanged-IsReading message stream none takes = record {
    returns = λ e. absurd cc;
    shorter = λ m rest e. absurd cc;
  }
  unchanged-IsReading message stream (some rest) takes = record {
    returns = λ e. absurd cc;
    shorter = λ m rest' e.
        let same : rest ≡ rest' = cc in
        subst (λ r. length r ≤ length stream) same (takes rest refl);
  }

  if-IsReading :
      (test : Bool) (stream : Bytes) (first second : Field)
      → IsReading stream first
      → IsReading stream second
      → IsReading stream (if test then first else second)
  if-IsReading true stream first second y n = y
  if-IsReading false stream first second y n = n

  read_field-IsReading :
      (message : IdentifyMessage) (tag : ℕ) (stream : Bytes)
      → IsReading stream (read_field message tag stream)
  unfolding read_field
  read_field-IsReading message tag stream =
      let text = λ (set : Bytes → IdentifyMessage).
        with_value-IsReading set stream (b.read_string stream) (b.takes_string stream) in
      let bytes = λ (set : Bytes → IdentifyMessage).
        with_value-IsReading set stream (b.read_bytes stream) (b.takes_bytes stream) in
      let other =
        unchanged-IsReading message stream (b.read_unknown tag stream)
          (b.takes_unknown tag stream) in
      if-IsReading (tag == 42) stream _ _ (text _) (
        if-IsReading (tag == 50) stream _ _ (text _) (
          if-IsReading (tag == 10) stream _ _ (bytes _) (
            if-IsReading (tag == 18) stream _ _ (bytes _) (
              if-IsReading (tag == 34) stream _ _ (bytes _) (
                if-IsReading (tag == 26) stream _ _ (text _)
                  (if-IsReading (tag == 66) stream _ _ (bytes _) other))))))

  read_or-returns : {A : Type 0} (read : Option A) → read_or read ≢ panic
  read_or-returns none e = cc
  read_or-returns (some x) e = cc

  read_fields-returns :
      (fuel : ℕ) (message : IdentifyMessage) (stream : Bytes)
      → length stream ≤ fuel
      → read_fields fuel message stream ≢ panic
  unfolding read_fields
  read_fields-returns fuel message [] enough e = cc
  read_fields-returns zero message (x ∷ stream) enough e = absurd (omega (arith, enough))
  read_fields-returns (suc fuel) message (x ∷ stream) enough e =
      elim (Option-cases (b.next_tag (x ∷ stream))) [
        | inl q ↦ absurd (ground (arith, q, e))
        | inr ((tag, stream1), q) ↦
            let reading = read_field-IsReading message tag stream1 in
            let less = b.takes_tag (x ∷ stream) tag stream1 q in
            elim (Outcome-cases (read_field message tag stream1)) [
              | inl ((message1, stream2), f) ↦
                  read_fields-returns fuel message1 stream2
                    (omega (arith, enough, less, reading.shorter message1 stream2 f))
                    (rw (q, f, read_fields) at e)
              | inr (inl (why, f)) ↦ absurd (ground (arith, q, f, e))
              | inr (inr f) ↦ absurd (reading.returns f)
            ]
      ]

  -- Reading an identify message comes to an end on every payload: it gives a message or an error.
  pub from_reader-returns : (bytes : Bytes) → from_reader bytes ≢ panic
  from_reader-returns bytes = read_fields-returns (length bytes) empty_message bytes (omega arith)
