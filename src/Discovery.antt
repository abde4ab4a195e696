-- ===== src/Discovery.antt =====
-- src/sync_discovery.rs: what a peer advertises on the local network, and which services of others are
-- taken for peers. Text is taken as its bytes, and an instant is a number. `encode_hex` and
-- `constant_time_eq` of this file are the same code as those of src/sync_protocol.rs.
pub mod Address
pub mod Accepted
use rusteyes.Common.{
  ℕ, ◌+◌, ◌-◌, ◌*◌, Bool, true, false, not, ◌&&◌, Option, none, some, List, [], ◌∷◌, ◌++◌,
  if◌then◌else◌, leb, ◌==◌, length,
}
use rusteyes.Common.Text.{Text, text, text_eq, text_lt}
use rusteyes.Common.Decimal.{to_decimal, parse}
use rusteyes.Common.Result.{Result, ok, err, ◌>>=◌, ◌>>◌, fail_if, map_err}
use rusteyes.Protocol.{Bytes, PeerId, peer_id_bytes, mac_bytes, SyncProtocolError}
use rusteyes.Protocol.Hex.{encode_hex, decode_hex_exact}
use rusteyes.Protocol.Mac.{constant_time_eq}

abbrev pub service_type : Text
service_type = text "_rusteyes-sync._tcp.local."

abbrev pub discovery_version : ℕ
discovery_version = 1

abbrev pub key_version : Text
key_version = text "version"

abbrev pub key_peer : Text
key_peer = text "peer"

abbrev pub key_port : Text
key_port = text "port"

abbrev pub key_mac : Text
key_mac = text "mac"

-- `SyncDiscoveryError`, without the errors of the multicast DNS library, and with the error of a peer
-- id in place of its text.
pub data SyncDiscoveryError : Type 0 where
  json mac_key missing_txt invalid_version invalid_port : Text → SyncDiscoveryError
  unsupported_version : ℕ → SyncDiscoveryError
  invalid_peer_id : SyncProtocolError → SyncDiscoveryError
  zero_port invalid_mac_hex authentication_failed no_address : SyncDiscoveryError
  port_mismatch : (txt_port srv_port : ℕ) → SyncDiscoveryError
  invalid_mac_length : (expected actual : ℕ) → SyncDiscoveryError

pub record DiscoveryPayload : Type 0 where
  pub version : ℕ
  pub peer : PeerId
  pub port : ℕ

-- The library's `ScopedIp`: the bytes of an address, and the index of a version 6 scope.
pub data ScopedIp : Type 0 where
  v4 : Bytes → ScopedIp
  v6 : Bytes → ℕ → ScopedIp
  unknown_ip : ScopedIp

pub data SocketAddr : Type 0 where
  socket_v4 : Bytes → ℕ → SocketAddr
  socket_v6 : Bytes → (port scope : ℕ) → SocketAddr

-- What the code reads of the library's `ResolvedService`.
pub record ResolvedService : Type 0 where
  pub ty_domain : Text
  pub port : ℕ
  pub property : Text → Option Text
  pub addresses : List ScopedIp

pub data ServiceEvent : Type 0 where
  service_resolved : ResolvedService → ServiceEvent
  other_event : ServiceEvent

pub record DiscoveredPeer : Type 0 where
  pub peer_id : PeerId
  pub address : SocketAddr
  pub observed_at : ℕ

pub data DiscoveryEvent : Type 0 where
  discovered : DiscoveredPeer → DiscoveryEvent
  shut_down : DiscoveryEvent

-- `SelectedDiscoveryEvent`: an event with the instant at which it is handled, the end of the
-- library's channel, or the request to stop.
pub data SelectedDiscoveryEvent : Type 0 where
  service_event : ServiceEvent → ℕ → SelectedDiscoveryEvent
  service_closed shutdown_requested : SelectedDiscoveryEvent

pub record DiscoveryMetadata : Type 0 where
  pub peer_id : PeerId
  pub transport_port : ℕ

-- The third-party crates: the JSON of a payload, and HMAC-SHA256 of a payload under a key.
pub record DiscoveryCodec : Type 0 where
  pub to_vec : DiscoveryPayload → Result Text Bytes
  pub hmac : (key payload : Bytes) → Result Text Bytes

-- `ok_or`.
abbrev pub ok_or {ℓ} : {A : Type ℓ} → SyncDiscoveryError → Option A → Result SyncDiscoveryError A
ok_or e none = err e
ok_or e (some a) = ok a

-- `required_txt`.
unfoldable pub required_txt : ResolvedService → Text → Result SyncDiscoveryError Text
required_txt service key = ok_or (missing_txt key) (service.property key)

-- `parse_version`.
unfoldable pub parse_version : Text → Result SyncDiscoveryError ℕ
unfolding parse
parse_version value = ok_or (invalid_version value) (parse 255 value)

-- `parse_port`.
unfoldable pub parse_port : Text → Result SyncDiscoveryError ℕ
unfolding parse
parse_port value = ok_or (invalid_port value) (parse 65535 value)

-- `validate_port`.
unfoldable pub validate_port : ℕ → Result SyncDiscoveryError (Unit {0})
validate_port port = fail_if (port == 0) zero_port

-- `hex_nibble`.
unfoldable pub hex_nibble : ℕ → Result SyncDiscoveryError ℕ
hex_nibble byte =
    if leb b'0' byte && leb byte b'9'
    then ok (byte - b'0')
    else if leb b'a' byte && leb byte b'f'
    then ok (byte - b'a' + 10)
    else if leb b'A' byte && leb byte b'F'
    then ok (byte - b'A' + 10)
    else err invalid_mac_hex

-- The loop of `decode_hex_mac`. The nibbles are below 16, so `(high << 4) | low` is high * 16 + low.
unfoldable pub mac_pairs : Bytes → Result SyncDiscoveryError Bytes
unfolding hex_nibble
mac_pairs [] = ok []
mac_pairs (h ∷ []) = ok []
mac_pairs (h ∷ l ∷ rest) = do
  high ← hex_nibble h
  low ← hex_nibble l
  output ← mac_pairs rest
  ok ((high * 16 + low) ∷ output)

-- `decode_hex_mac`.
unfoldable pub decode_hex_mac : Bytes → Result SyncDiscoveryError Bytes
unfolding mac_pairs
decode_hex_mac value = do
  fail_if (not (length value == mac_bytes * 2)) (invalid_mac_length (mac_bytes * 2) (length value))
  mac_pairs value

-- `socket_addr`.
unfoldable pub socket_addr : ScopedIp → ℕ → Option SocketAddr
socket_addr (v4 address) port = some (socket_v4 address port)
socket_addr (v6 address scope) port = some (socket_v6 address port scope)
socket_addr unknown_ip port = none

-- Rust's order of addresses: version 4 first, then by the bytes, the port and the scope.
abbrev pub address_key : SocketAddr → Text
address_key (socket_v4 address port) = 4 ∷ address ++ port ∷ []
address_key (socket_v6 address port scope) = 6 ∷ address ++ port ∷ scope ∷ []

unfoldable pub lesser : Option SocketAddr → Option SocketAddr → Option SocketAddr
unfolding text_lt
lesser none least = least
lesser (some a) none = some a
lesser (some a) (some b) = if text_lt (address_key b) (address_key a) then some b else some a

-- `service_address`, on the addresses.
unfoldable pub service_address : List ScopedIp → ℕ → Option SocketAddr
unfolding socket_addr lesser
service_address [] port = none
service_address (address ∷ rest) port =
    lesser (socket_addr address port) (service_address rest port)

module _ (c : DiscoveryCodec) where
  -- `authenticate_payload`.
  unfoldable pub authenticate_payload : DiscoveryPayload → Bytes → Result SyncDiscoveryError Bytes
  authenticate_payload payload secret = do
    bytes ← map_err json (c.to_vec payload)
    map_err mac_key (c.hmac secret bytes)

  -- `discovery_txt_properties`.
  unfoldable pub discovery_txt_properties :
      PeerId → ℕ → Bytes → Result SyncDiscoveryError (List (Text × Text))
  unfolding validate_port authenticate_payload encode_hex to_decimal
  discovery_txt_properties self_id transport_port secret = do
    validate_port transport_port
    mac ←
        authenticate_payload
          (record { version = discovery_version; peer = self_id; port = transport_port }) secret
    ok (
        (key_version, to_decimal 3 discovery_version [])
        ∷ (key_peer, encode_hex self_id)
        ∷ (key_port, to_decimal 5 transport_port [])
        ∷ (key_mac, encode_hex mac)
        ∷ [])

  -- `DiscoveryMetadata::from_resolved_service`.
  unfoldable pub from_resolved_service :
      ResolvedService → Bytes → Result SyncDiscoveryError DiscoveryMetadata
  unfolding required_txt parse_version parse_port authenticate_payload decode_hex_mac
      decode_hex_exact constant_time_eq validate_port
  from_resolved_service service secret = do
    version_text ← required_txt service key_version
    peer_text ← required_txt service key_peer
    port_text ← required_txt service key_port
    mac_text ← required_txt service key_mac
    version ← parse_version version_text
    peer_id ← map_err invalid_peer_id (decode_hex_exact peer_id_bytes peer_text (text "sender"))
    transport_port ← parse_port port_text
    expected ←
        authenticate_payload (record { version = version; peer = peer_id; port = transport_port })
          secret
    actual ← decode_hex_mac mac_text
    fail_if (not (constant_time_eq expected actual)) authentication_failed
    fail_if (not (version == discovery_version)) (unsupported_version version)
    validate_port transport_port
    ok (record { peer_id = peer_id; transport_port = transport_port })

  -- `discovered_peer_from_resolved_service` from the metadata.
  unfoldable pub discovered_peer_from_metadata :
      ResolvedService
      → PeerId
      → ℕ
      → DiscoveryMetadata
      → Result SyncDiscoveryError (Option DiscoveredPeer)
  unfolding text_eq service_address
  discovered_peer_from_metadata service self_id observed_at metadata =
      if text_eq metadata.peer_id self_id then ok none else (do
        fail_if (not (service.port == metadata.transport_port))
            (port_mismatch metadata.transport_port service.port)
        address ← ok_or no_address (service_address service.addresses metadata.transport_port)
        ok (
            some (record {
              peer_id = metadata.peer_id;
              address = address;
              observed_at = observed_at;
            })))

  -- `discovered_peer_from_resolved_service`.
  unfoldable pub discovered_peer_from_resolved_service :
      ResolvedService → PeerId → Bytes → ℕ → Result SyncDiscoveryError (Option DiscoveredPeer)
  unfolding from_resolved_service discovered_peer_from_metadata text_eq
  discovered_peer_from_resolved_service service self_id secret observed_at =
      if not (text_eq service.ty_domain service_type)
      then ok none
      else from_resolved_service service secret
        >>= discovered_peer_from_metadata service self_id observed_at

  -- `discovered_peer_from_event`.
  unfoldable pub discovered_peer_from_event :
      ServiceEvent → PeerId → Bytes → ℕ → Result SyncDiscoveryError (Option DiscoveredPeer)
  unfolding discovered_peer_from_resolved_service
  discovered_peer_from_event (service_resolved service) self_id secret observed_at =
      discovered_peer_from_resolved_service service self_id secret observed_at
  discovered_peer_from_event other_event self_id secret observed_at = ok none

  abbrev pub received :
      Result SyncDiscoveryError (Option DiscoveredPeer)
      → Option DiscoveryEvent
      → Option DiscoveryEvent
  received (ok (some peer)) later = some (discovered peer)
  received (ok none) later = later
  received (err e) later = later

  -- `receive_discovery_event`, over what its selector gives; `none` while it goes on to wait.
  unfoldable pub receive_discovery_event :
      List SelectedDiscoveryEvent → PeerId → Bytes → Option DiscoveryEvent
  unfolding discovered_peer_from_event
  receive_discovery_event [] self_id secret = none
  receive_discovery_event (service_event ev observed_at ∷ rest) self_id secret =
      received (discovered_peer_from_event ev self_id secret observed_at)
        (receive_discovery_event rest self_id secret)
  receive_discovery_event (service_closed ∷ rest) self_id secret = some shut_down
  receive_discovery_event (shutdown_requested ∷ rest) self_id secret = some shut_down
