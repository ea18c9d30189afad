-- ===== src/Runtime/Frame.antt =====
-- rp-codec/src/length_prefixed.rs: frames behind their length. The crate `unsigned_varint` is the
-- record `Varint`; an asynchronous stream is the list of the bytes that are still to come.
use rust_proof.Base.{
  ℕ, zero, suc, ◌+◌, ◌-◌, ◌%◌, ◌^◌, ◌≤◌, ◌<◌, ◌≡◌, refl, sym, ◌∙◌, ap, inl, inr, false, Option,
  none, some, [], ◌∷◌, ◌++◌, Bytes, Outcome, ok, err, ◌>>=◌, arith, ltb, if◌then◌else◌, length,
  take, drop, length-append, length-take, take-append, append_assoc, append-nil, Bool-cases,
  Option-cases, All,
}

-- At most four bytes with the high bit, and one without it.
pub record IsVarint (bytes : Bytes) : Type 0 where
  pub init : Bytes
  pub final : ℕ
  pub parts : bytes ≡ init ++ final ∷ []
  pub goes_on : All (λ b. 128 ≤ b) init
  pub ends : final < 128
  pub short : length init ≤ 4

-- Numbers of 32 bits: what is encoded decodes, whatever follows, and the high bit of a byte says
-- whether another follows.
pub record Varint : Type 0 where
  pub encode : ℕ → Bytes
  pub decode : Bytes → Option (ℕ × Bytes)
  pub decodes : (n : ℕ) (rest : Bytes) → n < 2 ^ 32 → decode (encode n ++ rest) ≡ some (n, rest)
  pub shape : (n : ℕ) → n < 2 ^ 32 → IsVarint (encode n)

pub data FrameError : Type 0 where
  payload_too_long invalid_prefix prefix_too_long body_too_short prefix_too_wide unexpected_eof :
      FrameError

module _ ⦃v : Varint⦄ where
  -- `payload.len() as u32`
  unfoldable pub encode_length_prefixed : Bytes → ℕ → Outcome FrameError Bytes
  encode_length_prefixed payload max_len =
      if ltb max_len (length payload)
      then err payload_too_long
      else ok (v.encode (length payload % 2 ^ 32) ++ payload)

  unfoldable pub decode_length_prefix : Bytes → ℕ → Outcome FrameError (ℕ × Bytes)
  decode_length_prefix input max_len = elim (v.decode input) [
    | none ↦ err invalid_prefix
    | some (payload_len, remaining) ↦
        let header_len = length input - length remaining in
        let total_len = header_len + payload_len in
        if ltb max_len payload_len
        then err prefix_too_long
        else if ltb (length input) total_len
        then err body_too_short
        else ok (header_len, take (total_len - header_len) (drop header_len input))
  ]

  unfoldable pub decode_length_prefixed_payload_len : Bytes → ℕ → Outcome FrameError ℕ
  decode_length_prefixed_payload_len prefix max_len = elim (v.decode prefix) [
    | none ↦ err invalid_prefix
    | some (payload_len, remaining) ↦
        if ltb max_len payload_len then err prefix_too_long else ok payload_len
  ]

  -- The bytes behind a whole prefix; what is returned besides the frame is still to come.
  unfoldable pub read_body : Bytes → Bytes → ℕ → Outcome FrameError (Bytes × Bytes)
  read_body prefix stream max_len =
      decode_length_prefixed_payload_len prefix max_len >>= λ payload_len.
      if ltb (length stream) payload_len
      then err unexpected_eof
      else ok (prefix ++ take payload_len stream, drop payload_len stream)

  -- The loop, with the number of bytes that the prefix may still have.
  unfoldable pub read_prefix : ℕ → Bytes → Bytes → ℕ → Outcome FrameError (Bytes × Bytes)
  read_prefix zero prefix stream max_len = err prefix_too_wide
  read_prefix (suc room) prefix [] max_len = err unexpected_eof
  read_prefix (suc room) prefix (b ∷ stream) max_len =
      let rest = read_prefix room (prefix ++ b ∷ []) stream max_len in
      if ltb b 128 then read_body (prefix ++ b ∷ []) stream max_len else rest

  unfoldable pub read_length_prefixed_frame : Bytes → ℕ → Outcome FrameError (Bytes × Bytes)
  read_length_prefixed_frame stream max_len = read_prefix 5 [] stream max_len

module _ ⦃v : Varint⦄ where
  taken :
      (head body rest : Bytes)
      → take (length body) (drop (length head) (head ++ (body ++ rest))) ≡ body
  taken [] body rest = take-append body rest
  taken (b ∷ head) body rest = taken head body rest

  decodes_body :
      (head body rest : Bytes) (max_len : ℕ)
      → v.decode (head ++ (body ++ rest)) ≡ some (length body, body ++ rest)
      → length body ≤ max_len
      → decode_length_prefix (head ++ (body ++ rest)) max_len ≡ ok (length head, body)
  unfolding decode_length_prefix
  decodes_body head body rest max_len found fits =
      let whole = length-append head (body ++ rest) in
      let parts = length-append body rest in
      let header : length (head ++ (body ++ rest)) - length (body ++ rest) ≡ length head =
        omega (arith, whole) in
      let total : length head + length body - length head ≡ length body = omega arith in
      let short : ltb max_len (length body) ≡ false = ground arith in
      let enough : ltb (length (head ++ (body ++ rest))) (length head + length body) ≡ false =
        ground (arith, whole, parts) in
      rw (found, header, short, enough, total, taken head body rest, decode_length_prefix) refl

  -- What `encode_length_prefixed` frames, `decode_length_prefix` reads back, whatever bytes follow:
  -- the header is what stands before the payload. This holds for limits of 32 bits.
  pub decode_length_prefix-encode :
      (payload frame rest : Bytes) (max_len : ℕ)
      → max_len < 2 ^ 32
      → encode_length_prefixed payload max_len ≡ ok frame
      → decode_length_prefix (frame ++ rest) max_len ≡ ok (length frame - length payload, payload)
  unfolding encode_length_prefixed
  decode_length_prefix-encode payload frame rest max_len small h =
      let n = length payload in
      let fits : n ≤ max_len = ground arith in
      let same : n % 2 ^ 32 ≡ n = omega arith in
      let framed : v.encode n ++ payload ≡ frame = ground (arith, same) in
      let read =
        decodes_body (v.encode n) payload rest max_len (v.decodes n (payload ++ rest) (omega arith))
          fits in
      let header : length (v.encode n ++ payload) - n ≡ length (v.encode n) =
        omega (arith, length-append (v.encode n) payload) in
      rw (sym framed, append_assoc (v.encode n) payload rest, read)
        (ap (λ k. ok (k, payload)) (sym header))

  take-drop : (n : ℕ) (xs : Bytes) → take n xs ++ drop n xs ≡ xs
  take-drop zero xs = refl
  take-drop (suc n) [] = refl
  take-drop (suc n) (x ∷ xs) = ap (◌∷◌ x) (take-drop n xs)

  read_body-bounded :
      (prefix stream frame rest : Bytes) (max_len : ℕ)
      → read_body prefix stream max_len ≡ ok (frame, rest)
      → (frame ++ rest ≡ prefix ++ stream) × (length frame ≤ length prefix + max_len)
  unfolding read_body decode_length_prefixed_payload_len
  read_body-bounded prefix stream frame rest max_len h = elim (Option-cases (v.decode prefix)) [
    | inl q ↦ absurd (ground arith)
    | inr ((n, remaining), q) ↦
        let f : frame ≡ prefix ++ take n stream = ground arith in
        let r : rest ≡ drop n stream = ground arith in
        let small : n ≤ max_len = ground arith in
        (
          rw (f, r)
              (append_assoc prefix (take n stream) (drop n stream)
                ∙ ap (λ x. prefix ++ x) (take-drop n stream)),
          omega (arith, ap length f, length-append prefix (take n stream), length-take n stream),
        )
  ]

  read_prefix-bounded :
      (room : ℕ) (prefix stream frame rest : Bytes) (max_len : ℕ)
      → read_prefix room prefix stream max_len ≡ ok (frame, rest)
      → (frame ++ rest ≡ prefix ++ stream) × (length frame ≤ length prefix + room + max_len)
  unfolding read_prefix
  read_prefix-bounded zero prefix stream frame rest max_len h = cc
  read_prefix-bounded (suc room) prefix [] frame rest max_len h = cc
  read_prefix-bounded (suc room) prefix (b ∷ stream) frame rest max_len h =
      let longer = length-append prefix (b ∷ []) in
      let moved = append_assoc prefix (b ∷ []) stream in
      elim (Bool-cases (ltb b 128)) [
        | inl ends ↦
            let (e, le) =
              read_body-bounded (prefix ++ b ∷ []) stream frame rest max_len (ground arith) in
            (e ∙ moved, omega (arith, le, longer))
        | inr goes_on ↦
            let (e, le) =
              read_prefix-bounded room (prefix ++ b ∷ []) stream frame rest max_len
                (ground arith) in
            (e ∙ moved, omega (arith, le, longer))
      ]

  -- A frame that is read stands at the front of the stream, nothing of the stream is lost behind it,
  -- and it has at most five bytes of prefix and the maximal length of a payload.
  pub read_length_prefixed_frame-bounded :
      (stream frame rest : Bytes) (max_len : ℕ)
      → read_length_prefixed_frame stream max_len ≡ ok (frame, rest)
      → (frame ++ rest ≡ stream) × (length frame ≤ 5 + max_len)
  unfolding read_length_prefixed_frame
  read_length_prefixed_frame-bounded stream frame rest max_len h =
      read_prefix-bounded 5 [] stream frame rest max_len h

  -- The loop takes the whole prefix, and no more.
  read_prefix-whole :
      (init : Bytes) (final k : ℕ) (prefix rest : Bytes) (max_len : ℕ)
      → All (λ b. 128 ≤ b) init
      → final < 128
      → length init < k
      → read_prefix k prefix (init ++ final ∷ rest) max_len
        ≡ read_body (prefix ++ (init ++ final ∷ [])) rest max_len
  unfolding read_prefix
  read_prefix-whole init final zero prefix rest max_len a ends room = absurd (omega arith)
  read_prefix-whole [] final (suc k) prefix rest max_len a ends room = ground arith
  read_prefix-whole (b ∷ init) final (suc k) prefix rest max_len a ends room = ground (
    arith,
    read_prefix-whole init final k (prefix ++ b ∷ []) rest max_len a.1 ends (omega arith),
    append_assoc prefix (b ∷ []) (init ++ final ∷ []),
  )

  drop_past : (body rest : Bytes) → drop (length body) (body ++ rest) ≡ rest
  drop_past [] rest = refl
  drop_past (b ∷ body) rest = drop_past body rest

  read_body-encode :
      (payload rest : Bytes) (max_len : ℕ)
      → max_len < 2 ^ 32
      → length payload ≤ max_len
      → read_body (v.encode (length payload)) (payload ++ rest) max_len
        ≡ ok (v.encode (length payload) ++ payload, rest)
  unfolding read_body decode_length_prefixed_payload_len
  read_body-encode payload rest max_len small fits =
      let n = length payload in
      let known : v.decode (v.encode n) ≡ some (n, []) =
        ap v.decode (sym (append-nil (v.encode n))) ∙ v.decodes n [] (omega arith) in
      let short : ltb max_len n ≡ false = ground arith in
      let enough : ltb (length (payload ++ rest)) n ≡ false =
        ground (arith, length-append payload rest) in
      rw
        (
          known,
          short,
          enough,
          take-append payload rest,
          drop_past payload rest,
          read_body,
          decode_length_prefixed_payload_len,
        )
        refl

  -- A frame that `encode_length_prefixed` made is read back from the front of a stream.
  pub read_length_prefixed_frame-encode :
      (payload frame rest : Bytes) (max_len : ℕ)
      → max_len < 2 ^ 32
      → encode_length_prefixed payload max_len ≡ ok frame
      → read_length_prefixed_frame (frame ++ rest) max_len ≡ ok (frame, rest)
  unfolding encode_length_prefixed read_length_prefixed_frame
  read_length_prefixed_frame-encode payload frame rest max_len small h =
      let n = length payload in
      let fits : n ≤ max_len = ground arith in
      let same : n % 2 ^ 32 ≡ n = omega arith in
      let framed : v.encode n ++ payload ≡ frame = ground (arith, same) in
      let s = v.shape n (omega arith) in
      let whole =
        read_prefix-whole s.init s.final 5 [] (payload ++ rest) max_len s.goes_on s.ends
          (omega (arith, s.short)) in
      let stream : (v.encode n ++ payload) ++ rest ≡ s.init ++ s.final ∷ (payload ++ rest) =
        rw (s.parts) (
          append_assoc (s.init ++ s.final ∷ []) payload rest
          ∙ append_assoc s.init (s.final ∷ []) (payload ++ rest)) in
      ap (λ x. read_prefix 5 [] x max_len) (ap (λ x. x ++ rest) (sym framed) ∙ stream)
      ∙ (whole
          ∙ (ap (λ x. read_body x (payload ++ rest) max_len) (sym s.parts)
              ∙ (read_body-encode payload rest max_len small fits ∙ ap (λ x. ok (x, rest)) framed)))
