-- ===== src/Runtime/Session/Identify/Roundtrip.antt =====
-- erp-runtime/src/network/protocol/identify.rs: the reader gives back the message that was written.
use rust_proof.Base.{
  ℕ, zero, suc, ◌≤◌, ◌<◌, ◌≡◌, refl, sym, ◌∙◌, ap, subst, true, Option, none, some, List, [], ◌∷◌,
  ◌++◌, Bytes, ok, length, arith, append_assoc, append-nil, All,
}
use rust_proof.Runtime.Utf8.{is_utf8}
use rust_proof.Runtime.Session.Identify.{
  Protobuf, IdentifyMessage, empty_message, read_field, read_fields, from_reader, write_with_tag,
  write_option, write_each, write_message,
}

module _ ⦃b : Protobuf⦄ where
  -- From one message and stream, the loop comes to another, with fuel enough at both.
  pub Leads : IdentifyMessage → Bytes → IdentifyMessage → Bytes → Type 0
  Leads m stream m' rest =
      (fuel : ℕ)
      → length stream ≤ fuel
      → (left : ℕ) × (length rest ≤ left) × (read_fields fuel m stream ≡ read_fields left m' rest)

  stays : (m : IdentifyMessage) (stream : Bytes) → Leads m stream m stream
  unfolding Leads
  stays m stream fuel enough = (fuel, enough, refl)

  Leads-trans :
      (m m1 m2 : IdentifyMessage) (s s1 s2 : Bytes)
      → Leads m s m1 s1
      → Leads m1 s1 m2 s2
      → Leads m s m2 s2
  unfolding Leads
  Leads-trans m m1 m2 s s1 s2 first second fuel enough =
      let (left, enough1, e) = first fuel enough in
      let (left', enough2, e') = second left enough1 in (left', enough2, e ∙ e')

  read_fields-step :
      (fuel : ℕ) (m m' : IdentifyMessage) (stream rest rest' : Bytes) (tag : ℕ)
      → b.next_tag stream ≡ some (tag, rest)
      → read_field m tag rest ≡ ok (m', rest')
      → length stream ≤ fuel
      → length rest' ≤ length rest
      → (left : ℕ) × (length rest' ≤ left) × (read_fields fuel m stream ≡ read_fields left m' rest')
  unfolding read_fields
  read_fields-step fuel m m' [] rest rest' tag e f enough less =
      absurd (omega (arith, b.takes_tag [] tag rest e))
  read_fields-step zero m m' (x ∷ stream) rest rest' tag e f enough less =
      absurd (omega (arith, enough))
  read_fields-step (suc fuel) m m' (x ∷ stream) rest rest' tag e f enough less = (
    fuel,
    omega (arith, enough, less, b.takes_tag (x ∷ stream) tag rest e),
    rw (e, f, read_fields) refl,
  )

  -- A field that is read as `m'`.
  write_with_tag-Leads :
      (m m' : IdentifyMessage) (tag : ℕ) (value rest : Bytes)
      → tag < 128
      → read_field m tag (b.write_value value ++ rest) ≡ ok (m', rest)
      → length rest ≤ length (b.write_value value ++ rest)
      → Leads m (write_with_tag tag value ++ rest) m' rest
  unfolding Leads
  write_with_tag-Leads m m' tag value rest small f less fuel enough =
      let whole = append_assoc (b.write_tag tag) (b.write_value value) rest in
      let tagged = ap b.next_tag whole ∙ b.reads_tag tag (b.write_value value ++ rest) small in
      read_fields-step fuel m m' (write_with_tag tag value ++ rest) (b.write_value value ++ rest)
        rest tag tagged f enough less

  -- What `set` makes of a value, the loop makes of a field with it.
  pub Sets : ℕ → Bytes → IdentifyMessage → IdentifyMessage → Type 0
  Sets tag value m m' = (rest : Bytes) → Leads m (write_with_tag tag value ++ rest) m' rest

  write_option-Leads :
      (set : Option Bytes → IdentifyMessage) (tag : ℕ) (field : Option Bytes) (rest : Bytes)
      → ((value : Bytes) → field ≡ some value → Sets tag value (set none) (set (some value)))
      → Leads (set none) (write_option tag field ++ rest) (set field) rest
  unfolding Sets
  write_option-Leads set tag none rest sets = stays (set none) rest
  write_option-Leads set tag (some value) rest sets = sets value refl rest

  write_each-Leads :
      (P : Bytes → Type 0) (set : List Bytes → IdentifyMessage) (tag : ℕ)
      (before values : List Bytes) (rest : Bytes)
      → All P values
      → ((known : List Bytes) (value : Bytes)
          → P value
          → Sets tag value (set known) (set (known ++ value ∷ [])))
      → Leads (set before) (write_each tag values ++ rest) (set (before ++ values)) rest
  unfolding Sets write_each
  write_each-Leads P set tag before [] rest all sets =
      subst (λ known. Leads (set before) rest (set known) rest) (sym (append-nil before))
        (stays (set before) rest)
  write_each-Leads P set tag before (value ∷ values) rest all sets =
      let longer = before ++ value ∷ [] in
      let stream = append_assoc (write_with_tag tag value) (write_each tag values) rest in
      let known = append_assoc before (value ∷ []) values in
      let later =
        subst (λ m. Leads (set longer) (write_each tag values ++ rest) (set m) rest) known
          (write_each-Leads P set tag longer values rest all.1 sets) in
      subst (λ s. Leads (set before) s (set (before ++ value ∷ values)) rest) (sym stream)
        (Leads-trans (set before) (set longer) (set (before ++ value ∷ values)) _ _ rest
          (sets before value all.0 (write_each tag values ++ rest)) later)

  -- Texts are UTF-8.
  pub record IsEncodable (m : IdentifyMessage) : Type 0 where
    pub version : (value : Bytes) → m.protocol_version ≡ some value → is_utf8 value ≡ true
    pub agent : (value : Bytes) → m.agent_version ≡ some value → is_utf8 value ≡ true
    pub names : All (λ value. is_utf8 value ≡ true) m.protocols

  write_string-Sets :
      (m m' : IdentifyMessage) (tag : ℕ) (value : Bytes)
      → tag < 128
      → is_utf8 value ≡ true
      → ((rest : Bytes)
          → b.read_string (b.write_value value ++ rest) ≡ some (value, rest)
          → read_field m tag (b.write_value value ++ rest) ≡ ok (m', rest))
      → Sets tag value m m'
  unfolding Sets
  write_string-Sets m m' tag value small text reads rest =
      let read = b.reads_string value rest text in
      write_with_tag-Leads m m' tag value rest small (reads rest read)
        (b.takes_string _ value rest read)

  write_bytes-Sets :
      (m m' : IdentifyMessage) (tag : ℕ) (value : Bytes)
      → tag < 128
      → ((rest : Bytes)
          → b.read_bytes (b.write_value value ++ rest) ≡ some (value, rest)
          → read_field m tag (b.write_value value ++ rest) ≡ ok (m', rest))
      → Sets tag value m m'
  unfolding Sets
  write_bytes-Sets m m' tag value small reads rest =
      let read = b.reads_bytes value rest in
      write_with_tag-Leads m m' tag value rest small (reads rest read)
        (b.takes_bytes _ value rest read)

  all_unit : (values : List Bytes) → All (λ value. Unit {0}) values
  all_unit [] = tt
  all_unit (value ∷ values) = (tt, all_unit values)

  ended : (fuel : ℕ) (m : IdentifyMessage) → read_fields fuel m [] ≡ ok m
  unfolding read_fields
  ended zero m = refl
  ended (suc fuel) m = refl

  write_message-Leads :
      (m : IdentifyMessage) → IsEncodable m → Leads empty_message (write_message m) m []
  unfolding write_message read_field
  write_message-Leads m i =
      let m0 = empty_message in
      let m1 : IdentifyMessage = record m0 { protocol_version = m.protocol_version } in
      let m2 : IdentifyMessage = record m1 { agent_version = m.agent_version } in
      let m3 : IdentifyMessage = record m2 { public_key = m.public_key } in
      let m4 : IdentifyMessage = record m3 { listen_addrs = m.listen_addrs } in
      let m5 : IdentifyMessage = record m4 { observed_addr = m.observed_addr } in
      let m6 : IdentifyMessage = record m5 { protocols = m.protocols } in
      let rest7 = write_option 66 m.signed_peer_record in
      let rest6 = write_each 26 m.protocols ++ rest7 in
      let rest5 = write_option 34 m.observed_addr ++ rest6 in
      let rest4 = write_each 18 m.listen_addrs ++ rest5 in
      let rest3 = write_option 10 m.public_key ++ rest4 in
      let rest2 = write_option 50 m.agent_version ++ rest3 in
      let step1 : Leads m0 (write_message m) m1 rest2 =
        write_option-Leads (λ o. record m0 { protocol_version = o }) 42 m.protocol_version rest2
          (λ value e.
            write_string-Sets _ _ 42 value (omega arith) (i.version value e)
              (λ rest read. rw read refl)) in
      let step2 : Leads m1 rest2 m2 rest3 =
        write_option-Leads (λ o. record m1 { agent_version = o }) 50 m.agent_version rest3
          (λ value e.
            write_string-Sets _ _ 50 value (omega arith) (i.agent value e)
              (λ rest read. rw read refl)) in
      let step3 : Leads m2 rest3 m3 rest4 =
        write_option-Leads (λ o. record m2 { public_key = o }) 10 m.public_key rest4
          (λ value e. write_bytes-Sets _ _ 10 value (omega arith) (λ rest read. rw read refl)) in
      let step4 : Leads m3 rest4 m4 rest5 =
        write_each-Leads (λ value. Unit {0}) (λ known. record m3 { listen_addrs = known }) 18 []
          m.listen_addrs rest5 (all_unit m.listen_addrs)
          (λ known value u.
            write_bytes-Sets _ _ 18 value (omega arith) (λ rest read. rw read refl)) in
      let step5 : Leads m4 rest5 m5 rest6 =
        write_option-Leads (λ o. record m4 { observed_addr = o }) 34 m.observed_addr rest6
          (λ value e. write_bytes-Sets _ _ 34 value (omega arith) (λ rest read. rw read refl)) in
      let step6 : Leads m5 rest6 m6 rest7 =
        write_each-Leads (λ value. is_utf8 value ≡ true) (λ known. record m5 { protocols = known })
          26 [] m.protocols rest7 i.names
          (λ known value text.
            write_string-Sets _ _ 26 value (omega arith) text (λ rest read. rw read refl)) in
      let step7 : Leads m6 (rest7 ++ []) m [] =
        write_option-Leads (λ o. record m6 { signed_peer_record = o }) 66 m.signed_peer_record []
          (λ value e. write_bytes-Sets _ _ 66 value (omega arith) (λ rest read. rw read refl)) in
      let last : Leads m6 rest7 m [] = subst (λ s. Leads m6 s m []) (append-nil rest7) step7 in
      Leads-trans m0 m1 m (write_message m) rest2 [] step1 (
        Leads-trans m1 m2 m rest2 rest3 [] step2 (
          Leads-trans m2 m3 m rest3 rest4 [] step3 (
            Leads-trans m3 m4 m rest4 rest5 [] step4 (
              Leads-trans m4 m5 m rest5 rest6 [] step5
                (Leads-trans m5 m6 m rest6 rest7 [] step6 last)))))

  -- An identify message whose texts are UTF-8, written and read, is the message again.
  pub from_reader-write_message :
      (m : IdentifyMessage) → IsEncodable m → from_reader (write_message m) ≡ ok m
  unfolding Leads read_fields
  from_reader-write_message m i =
      let (left, enough, e) = write_message-Leads m i (length (write_message m)) (omega arith) in
      e ∙ ended left m
