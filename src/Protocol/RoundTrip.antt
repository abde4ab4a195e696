-- ===== src/Protocol/RoundTrip.antt =====
-- src/sync_protocol.rs: what `decode_authenticated` makes of the output of `encode_authenticated`.
use rusteyes.Common.{
  ℕ, ◌/◌, ◌≡◌, refl, ap, ◌∙◌, sym, subst, true, length, All, arith, leb, Bool-cases, inl, inr,
}
use rusteyes.Common.Text.{Text, text}
use rusteyes.Common.Utf8.{is_utf8}
use rusteyes.Common.Words.{millis, word_max}
use rusteyes.Common.Result.{
  Result, ok, ◌>>=◌, ◌>>◌, map_err, >>-eq-ok, ok_injective, >>=-eq-ok, map_err-eq-ok,
}
use rusteyes.Protocol.{
  Bytes, peer_id_bytes, mac_bytes, SyncEvent, active_time_elapsed, break_started, scheduler_state,
  scheduler_reset, disable_for, disable_until_restart, enable, lock_after_current_break,
  SyncFramePayload, peer_hello, event, SyncMessage, SyncProtocolError, json, mac_key,
}
use rusteyes.Protocol.Hex.{encode_hex, decode_hex_exact, decode_hex_exact-encode_hex, IsByte}
use rusteyes.Protocol.Mac.{constant_time_eq, constant_time_eq_iff}
use rusteyes.Protocol.Messages.{validate}
use rusteyes.Protocol.Wire.{
  Codec, IsFaithful, serialize_duration, serialize_event, serialize_payload, serialize,
  deserialize_event, deserialize_payload, deserialize, custom_error,
}
use rusteyes.Protocol.Authentication.{
  hmac_sha256, authenticate_message, encode_authenticated, read_envelope, decode_authenticated,
}

-- A duration with the part below a millisecond cut off.
abbrev pub whole_millis : ℕ → ℕ
whole_millis duration = millis (duration / 1000000)

abbrev pub whole_event : SyncEvent → SyncEvent
whole_event (active_time_elapsed elapsed) = active_time_elapsed (whole_millis elapsed)
whole_event (break_started name message started_at_ms origin position) =
    break_started name message started_at_ms origin
      (record position { active_elapsed = whole_millis position.active_elapsed })
whole_event (scheduler_state slot active_elapsed last_satisfied_slots active_break) =
    scheduler_state slot (whole_millis active_elapsed) last_satisfied_slots active_break
whole_event scheduler_reset = scheduler_reset
whole_event (disable_for duration) = disable_for (whole_millis duration)
whole_event disable_until_restart = disable_until_restart
whole_event enable = enable
whole_event lock_after_current_break = lock_after_current_break

abbrev pub whole_payload : SyncFramePayload → SyncFramePayload
whole_payload (peer_hello compatibility) = peer_hello compatibility
whole_payload (event e) = event (whole_event e)

-- The message with every duration cut to whole milliseconds.
abbrev pub whole : SyncMessage → SyncMessage
whole m = record m { payload = whole_payload m.payload }

abbrev pub IsFixed : ℕ → Bytes → Type 0
IsFixed n bytes = (length bytes ≡ n) × All IsByte bytes

abbrev pub IsFixedPayload : SyncFramePayload → Type 0
IsFixedPayload (peer_hello compatibility) = IsFixed mac_bytes compatibility
IsFixedPayload (event e) = Unit

-- The ids are of the sizes of their Rust arrays.
abbrev pub IsSized : SyncMessage → Type 0
IsSized m = IsFixed peer_id_bytes m.sender × IsFixedPayload m.payload

pub decode-fixed :
    (n : ℕ) (bytes : Bytes) (field : Text)
    → IsFixed n bytes
    → decode_hex_exact n (encode_hex bytes) field ≡ ok bytes
decode-fixed n bytes field (size, all) =
    subst (λ k. decode_hex_exact k (encode_hex bytes) field ≡ ok bytes) size
      (decode_hex_exact-encode_hex bytes field all)

module _ (c : Codec) where
  -- What a duration's serialisation gives, also of the duration cut to whole milliseconds.
  serialize_duration-whole :
      (d : ℕ) {ms : ℕ}
      → serialize_duration c d ≡ ok ms
      → (millis ms ≡ whole_millis d) × (serialize_duration c (whole_millis d) ≡ ok ms)
  unfolding serialize_duration
  serialize_duration-whole d h =
      let e : whole_millis d / 1000000 ≡ d / 1000000 = omega arith in
      elim (Bool-cases (leb (d / 1000000) word_max)) [
        | inl t ↦ (ground arith, rw e h)
        | inr f ↦ ground arith
      ]

  -- An event of one duration: `k` makes its serialised form, and `j` is what that reads back as.
  serialize-whole :
      (d : ℕ) (k j : ℕ → SyncEvent) {wire : SyncEvent}
      → ((ms : ℕ) → deserialize_event (k ms) ≡ j (millis ms))
      → (serialize_duration c d >>= λ ms. ok (k ms)) ≡ ok wire
      → (deserialize_event wire ≡ j (whole_millis d))
        × ((serialize_duration c (whole_millis d) >>= λ ms. ok (k ms)) ≡ ok wire)
  serialize-whole d k j {wire = wire} reads h =
      let (ms, e, same) = >>=-eq-ok (serialize_duration c d) (λ n. ok (k n)) h in
      let (value, again) = serialize_duration-whole d e in
      (
        subst (λ w. deserialize_event w ≡ j (whole_millis d)) (ok_injective same)
            (reads ms ∙ ap j value),
        rw again same,
      )

  serialize_event-whole :
      (e : SyncEvent) {wire : SyncEvent}
      → serialize_event c e ≡ ok wire
      → (deserialize_event wire ≡ whole_event e) × (serialize_event c (whole_event e) ≡ ok wire)
  unfolding serialize_event deserialize_event
  serialize_event-whole (active_time_elapsed elapsed) h =
      serialize-whole elapsed active_time_elapsed active_time_elapsed (λ ms. refl) h
  serialize_event-whole (break_started name message started_at_ms origin position) h =
      let k : ℕ → SyncEvent = λ ms.
        break_started name message started_at_ms origin (record position { active_elapsed = ms }) in
      serialize-whole position.active_elapsed k k (λ ms. refl) h
  serialize_event-whole (scheduler_state slot elapsed last_satisfied_slots active_break) h =
      let k : ℕ → SyncEvent = λ ms. scheduler_state slot ms last_satisfied_slots active_break in
      serialize-whole elapsed k k (λ ms. refl) h
  serialize_event-whole scheduler_reset h = ground arith
  serialize_event-whole (disable_for duration) h =
      serialize-whole duration disable_for disable_for (λ ms. refl) h
  serialize_event-whole disable_until_restart h = ground arith
  serialize_event-whole enable h = ground arith
  serialize_event-whole lock_after_current_break h = ground arith

  serialize_payload-whole :
      (p : SyncFramePayload) {wire : SyncFramePayload}
      → IsFixedPayload p
      → serialize_payload c p ≡ ok wire
      → (deserialize_payload c wire ≡ ok (whole_payload p))
        × (serialize_payload c (whole_payload p) ≡ ok wire)
  unfolding serialize_payload deserialize_payload custom_error
  serialize_payload-whole (peer_hello compatibility) {wire = wire} fixed h =
      let made : peer_hello (encode_hex compatibility) ≡ wire = ok_injective h in
      (
        subst (λ w. deserialize_payload c w ≡ ok (peer_hello compatibility)) made
            (rw (decode-fixed mac_bytes compatibility (text "compatibility") fixed) refl),
        h,
      )
  serialize_payload-whole (event e) {wire = wire} fixed h =
      let (w, made, same) = >>=-eq-ok (serialize_event c e) (λ v. ok (event v)) h in
      let (value, again) = serialize_event-whole e made in
      (
        subst (λ v. deserialize_payload c v ≡ ok (event (whole_event e))) (ok_injective same)
            (ap (λ v. ok (event v)) value),
        rw again same,
      )

  -- A serialised message reads back as the message with whole milliseconds, which is serialised to
  -- the same.
  pub serialize-whole_message :
      (m : SyncMessage) {wire : SyncMessage}
      → IsSized m
      → serialize c m ≡ ok wire
      → (deserialize c wire ≡ ok (whole m)) × (serialize c (whole m) ≡ ok wire)
  unfolding serialize deserialize custom_error
  serialize-whole_message m {wire = wire} (sender, payload) h =
      let k : SyncFramePayload → Result Text SyncMessage =
        λ p. ok (record m { sender = encode_hex m.sender; payload = p }) in
      let (p, made, same) = >>=-eq-ok (serialize_payload c m.payload) k h in
      let (value, again) = serialize_payload-whole m.payload payload made in
      (
        subst (λ v. deserialize c v ≡ ok (whole m)) (ok_injective same)
            (rw (decode-fixed peer_id_bytes m.sender (text "sender") sender, value) refl),
        rw again same,
      )

  -- What a successful `authenticate_message` went through.
  pub authenticate_message-made :
      (m : SyncMessage) (secret : Bytes) {mac : Bytes}
      → authenticate_message c m secret ≡ ok mac
      → (wire : SyncMessage) × (serialize c m ≡ ok wire)
        × (payload : Bytes) × (c.hmac secret payload ≡ ok mac)
  unfolding authenticate_message hmac_sha256
  authenticate_message-made m secret h =
      let (wire, es, rest) =
        >>=-eq-ok (map_err json (serialize c m))
          (λ w. map_err json (c.to_vec w) >>= λ payload. hmac_sha256 c secret payload) h in
      let (payload, ep, made) =
        >>=-eq-ok (map_err json (c.to_vec wire)) (λ p. hmac_sha256 c secret p) rest in
      (
        wire,
        map_err-eq-ok json (serialize c m) es,
        payload,
        map_err-eq-ok mac_key (c.hmac secret payload) made,
      )

  -- A message with another's serialised form has its MAC.
  authenticate_message-wire :
      (m n : SyncMessage) (secret : Bytes)
      → serialize c m ≡ serialize c n
      → authenticate_message c m secret ≡ authenticate_message c n secret
  unfolding authenticate_message
  authenticate_message-wire m n secret e = rw e

  constant_time_eq_self : (mac : Bytes) → constant_time_eq mac mac ≡ true
  constant_time_eq_self mac = (constant_time_eq_iff mac mac refl).1 refl

  -- What was encoded, read and authenticated, is checked once more.
  decode_authenticated-read :
      (m : SyncMessage) (secret s mac : Bytes)
      → read_envelope c s ≡ ok (m, encode_hex mac)
      → authenticate_message c m secret ≡ ok mac
      → IsFixed mac_bytes mac
      → decode_authenticated c s secret ≡ (validate m >> ok m)
  unfolding decode_authenticated
  decode_authenticated-read m secret s mac read made fixed =
      rw (read, made, decode-fixed mac_bytes mac (text "mac") fixed, constant_time_eq_self mac) refl

  -- What a successful `encode_authenticated` went through.
  pub encode_authenticated-made :
      (m : SyncMessage) (secret : Bytes) {s : Bytes}
      → encode_authenticated c m secret ≡ ok s
      → (mac : Bytes) × (authenticate_message c m secret ≡ ok mac)
        × (wire : SyncMessage) × (serialize c m ≡ ok wire)
        × (c.to_string wire (encode_hex mac) ≡ ok s)
  unfolding encode_authenticated
  encode_authenticated-made m secret h =
      let write : Bytes → SyncMessage → Result SyncProtocolError Bytes =
        λ mac wire. map_err json (c.to_string wire (encode_hex mac)) in
      let rest : Bytes → Result SyncProtocolError Bytes =
        λ mac. map_err json (serialize c m) >>= write mac in
      let (fine, sent) = >>-eq-ok (validate m) (authenticate_message c m secret >>= rest) h in
      let (mac, made, written) = >>=-eq-ok (authenticate_message c m secret) rest sent in
      let (wire, es, out) = >>=-eq-ok (map_err json (serialize c m)) (write mac) written in
      (
        mac,
        made,
        wire,
        map_err-eq-ok json (serialize c m) es,
        map_err-eq-ok json (c.to_string wire (encode_hex mac)) out,
      )

  -- What is encoded is UTF-8.
  pub encode_authenticated-is_utf8 :
      (m : SyncMessage) (secret s : Bytes)
      → IsFaithful c
      → encode_authenticated c m secret ≡ ok s
      → is_utf8 s ≡ true
  encode_authenticated-is_utf8 m secret s faithful h =
      let (mac, made, wire, es, out) = encode_authenticated-made m secret h in
      faithful.is_text wire (encode_hex mac) s out

  -- What `encode_authenticated` writes, `decode_authenticated` under the same secret authenticates
  -- and reads as the same message with every duration cut to whole milliseconds, and accepts exactly
  -- if that message is still valid. The ids have the sizes of their arrays; JSON that is written
  -- reads back, and a MAC is 32 bytes.
  pub decode_authenticated-encode_authenticated :
      (m : SyncMessage) (secret s : Bytes)
      → IsFaithful c
      → IsSized m
      → encode_authenticated c m secret ≡ ok s
      → decode_authenticated c s secret ≡ (validate (whole m) >> ok (whole m))
  decode_authenticated-encode_authenticated m secret s faithful sized h =
      let (mac, made, wire, es, out) = encode_authenticated-made m secret h in
      let (unused, eu, payload, em) = authenticate_message-made m secret made in
      let (value, again) = serialize-whole_message m sized es in
      let read : read_envelope c s ≡ ok (whole m, encode_hex mac) =
        unfold read_envelope in rw (faithful.reads_back wire (encode_hex mac) s out, value) refl in
      decode_authenticated-read (whole m) secret s mac read
        (authenticate_message-wire (whole m) m secret (again ∙ sym es) ∙ made)
        (faithful.mac_size secret payload mac em, faithful.mac_is_bytes secret payload mac em)
