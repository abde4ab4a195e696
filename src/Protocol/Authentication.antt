-- ===== src/Protocol/Authentication.antt =====
-- src/sync_protocol.rs: `encode_authenticated` and `decode_authenticated`, over the serialised
-- messages of Wire.antt.
use rusteyes.Common.{not}
use rusteyes.Common.Text.{Text, text}
use rusteyes.Common.Result.{Result, ok, ◌>>=◌, ◌>>◌, fail_if, map_err}
use rusteyes.Protocol.{
  Bytes, mac_bytes, SyncMessage, SyncProtocolError, json, mac_key, authentication_failed,
}
use rusteyes.Protocol.Hex.{encode_hex, decode_hex_exact}
use rusteyes.Protocol.Mac.{constant_time_eq}
use rusteyes.Protocol.Messages.{validate}
use rusteyes.Protocol.Wire.{Codec, serialize, deserialize}

module _ (c : Codec) where
  -- `hmac_sha256` of the secret, `update` with the payload and `finish_hmac`.
  unfoldable pub hmac_sha256 : (secret payload : Bytes) → Result SyncProtocolError Bytes
  hmac_sha256 secret payload = map_err mac_key (c.hmac secret payload)

  -- `authenticate_message`.
  unfoldable pub authenticate_message : SyncMessage → Bytes → Result SyncProtocolError Bytes
  unfolding hmac_sha256
  authenticate_message message secret = do
    wire ← map_err json (serialize c message)
    payload ← map_err json (c.to_vec wire)
    hmac_sha256 secret payload

  -- `encode_authenticated`.
  unfoldable pub encode_authenticated : SyncMessage → Bytes → Result SyncProtocolError Bytes
  unfolding validate authenticate_message encode_hex
  encode_authenticated message secret = do
    validate message
    mac ← authenticate_message message secret
    wire ← map_err json (serialize c message)
    map_err json (c.to_string wire (encode_hex mac))

  -- `serde_json::from_str::<AuthenticatedSyncMessage>`: the message and the text of its MAC.
  unfoldable pub read_envelope : Bytes → Result Text (SyncMessage × Text)
  unfolding deserialize
  read_envelope input = do
    envelope ← c.from_str input
    message ← deserialize c envelope.0
    ok (message, envelope.1)

  -- `decode_authenticated`.
  unfoldable pub decode_authenticated : Bytes → Bytes → Result SyncProtocolError SyncMessage
  unfolding read_envelope authenticate_message decode_hex_exact constant_time_eq validate
  decode_authenticated input secret = do
    envelope ← map_err json (read_envelope input)
    expected ← authenticate_message envelope.0 secret
    actual ← decode_hex_exact mac_bytes envelope.1 (text "mac")
    fail_if (not (constant_time_eq expected actual)) authentication_failed
    validate envelope.0
    ok envelope.0
