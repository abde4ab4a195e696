-- ===== src/Protocol/Authentic.antt =====
-- src/sync_protocol.rs: what a message has gone through that `decode_authenticated` accepts.
use rusteyes.Common.{◌≡◌, sym, ap, ◌∙◌, true, not, length, arith, subst}
use rusteyes.Common.Text.{Text, text}
use rusteyes.Common.Result.{
  Result, ok, ◌>>=◌, ◌>>◌, fail_if, map_err, fail_if-eq-ok, >>-eq-ok, >>=-eq-ok, ok_injective,
  map_err-eq-ok,
}
use rusteyes.Protocol.{
  Bytes, mac_bytes, SyncMessage, SyncProtocolError, json, authentication_failed,
}
use rusteyes.Protocol.Hex.{decode_hex_exact, decode_hex_exact-IsDecoded}
use rusteyes.Protocol.Mac.{constant_time_eq, constant_time_eq_iff}
use rusteyes.Protocol.Messages.{validate}
use rusteyes.Protocol.Wire.{Codec, IsFaithful}
use rusteyes.Protocol.Authentication.{authenticate_message, read_envelope, decode_authenticated}
use rusteyes.Protocol.RoundTrip.{authenticate_message-made}

-- The input is the envelope of the message with a MAC in hexadecimal, which is the message's under
-- the secret, and the message is valid.
pub record IsAuthentic (c : Codec) (input secret : Bytes) (m : SyncMessage) : Type 0 where
  pub mac_text : Text
  pub mac : Bytes
  pub is_read : read_envelope c input ≡ ok (m, mac_text)
  pub is_mac : authenticate_message c m secret ≡ ok mac
  pub is_shown : decode_hex_exact mac_bytes mac_text (text "mac") ≡ ok mac
  pub is_valid : validate m ≡ ok tt

module _ (c : Codec) where
  -- The tests on the two MACs and on the message.
  tests-ok :
      (n : SyncMessage) (expected actual : Bytes) {m : SyncMessage}
      → length expected ≡ length actual
      → (fail_if (not (constant_time_eq expected actual)) authentication_failed
          >> (validate n >> ok n))
        ≡ ok m
      → (actual ≡ expected) × (validate n ≡ ok tt) × (n ≡ m)
  tests-ok n expected actual size h =
      let (hit, rest) =
        >>-eq-ok (fail_if (not (constant_time_eq expected actual)) authentication_failed)
          (validate n >> ok n) h in
      let (fine, out) = >>-eq-ok (validate n) (ok n) rest in
      let same : constant_time_eq expected actual ≡ true =
        ground (
          arith,
          fail_if-eq-ok (not (constant_time_eq expected actual)) authentication_failed hit,
        ) in
      (sym ((constant_time_eq_iff expected actual size).0 same), fine, ok_injective out)

  -- A message is accepted only if the input carries the MAC of that very message under the secret,
  -- and only if the message is valid. A MAC is 32 bytes.
  pub decode_authenticated-IsAuthentic :
      (input secret : Bytes) (m : SyncMessage)
      → IsFaithful c
      → decode_authenticated c input secret ≡ ok m
      → IsAuthentic c input secret m
  unfolding decode_authenticated
  decode_authenticated-IsAuthentic input secret m faithful h =
      let k : SyncMessage × Text → Bytes → Bytes → Result SyncProtocolError SyncMessage =
        λ envelope expected actual.
          fail_if (not (constant_time_eq expected actual)) authentication_failed
          >> (validate envelope.0 >> ok envelope.0) in
      let (envelope, read, authenticated) =
        >>=-eq-ok (map_err json (read_envelope c input))
          (λ e. authenticate_message c e.0 secret >>= λ expected.
            decode_hex_exact mac_bytes e.1 (text "mac") >>= k e expected)
          h in
      let (expected, made, decoded) =
        >>=-eq-ok (authenticate_message c envelope.0 secret)
          (λ x. decode_hex_exact mac_bytes envelope.1 (text "mac") >>= k envelope x)
          authenticated in
      let (actual, shown, tested) =
        >>=-eq-ok (decode_hex_exact mac_bytes envelope.1 (text "mac")) (k envelope expected)
          decoded in
      let (wire, es, payload, em) = authenticate_message-made c envelope.0 secret made in
      let size : length expected ≡ length actual =
        faithful.mac_size secret payload expected em
        ∙ sym (decode_hex_exact-IsDecoded mac_bytes envelope.1 (text "mac") actual shown).count in
      let (same, fine, out) = tests-ok envelope.0 expected actual size tested in
      subst (IsAuthentic c input secret) out (record {
        mac_text = envelope.1;
        mac = expected;
        is_read = map_err-eq-ok json (read_envelope c input) read;
        is_mac = made;
        is_shown = shown ∙ ap ok same;
        is_valid = fine;
      })
