-- ===== src/Discovery/Accepted.antt =====
-- src/sync_discovery.rs: what one peer advertises, another takes for a peer.
use rusteyes.Common.{
  ℕ, ◌+◌, ◌*◌, ◌≤◌, ◌≡◌, ◌≢◌, refl, sym, ap, subst, ==_iff, not, some, List, [], ◌∷◌, All, arith,
  ◌==◌, length,
}
use rusteyes.Common.Text.{Text, text, text_eq_iff, text_eq_ne}
use rusteyes.Common.Decimal.{to_decimal, parse-to_decimal}
use rusteyes.Common.Result.{
  Result, ok, ◌>>=◌, fail_if, map_err, >>-eq-ok, >>=-eq-ok, fail_if-eq-ok, map_err-eq-ok,
  ok_injective,
}
use rusteyes.Protocol.{Bytes, PeerId, peer_id_bytes, mac_bytes, invalid_hex_length}
use rusteyes.Protocol.Hex
use rusteyes.Protocol.Hex.{IsByte, encode_hex, decode_hex_exact, decode_pairs}
use rusteyes.Protocol.Mac.{constant_time_eq_iff}
use rusteyes.Protocol.RoundTrip.{IsFixed, decode-fixed}
use rusteyes.Discovery.{
  SyncDiscoveryError, mac_key, json, discovery_version, key_version, key_peer, key_port, key_mac,
  service_type, SocketAddr, ResolvedService, DiscoveryCodec, DiscoveryPayload, required_txt,
  parse_version, parse_port, validate_port, hex_nibble, mac_pairs, decode_hex_mac,
  authenticate_payload, discovery_txt_properties, from_resolved_service,
  discovered_peer_from_metadata, discovered_peer_from_resolved_service,
}
use rusteyes.Discovery.Address.{Offers, IsChosen, service_address-chooses}

-- A MAC is 32 bytes.
pub record IsFaithful (c : DiscoveryCodec) : Type 0 where
  pub mac_size : (key payload mac : Bytes) → c.hmac key payload ≡ ok mac → length mac ≡ mac_bytes
  pub mac_is_bytes : (key payload mac : Bytes) → c.hmac key payload ≡ ok mac → All IsByte mac

-- The two nibble functions of the code read alike.
hex_nibble-agrees :
    (field : Text) (byte : ℕ) {n : ℕ} → Hex.hex_nibble field byte ≡ ok n → hex_nibble byte ≡ ok n
unfolding hex_nibble Hex.hex_nibble
hex_nibble-agrees field byte h = ground arith

mac_pairs-agrees :
    (field : Text) (value : Bytes) {bytes : Bytes}
    → decode_pairs field value ≡ ok bytes
    → mac_pairs value ≡ ok bytes
unfolding mac_pairs decode_pairs
mac_pairs-agrees field [] h = ap ok (ok_injective h)
mac_pairs-agrees field (a ∷ []) h = ap ok (ok_injective h)
mac_pairs-agrees field (a ∷ b ∷ rest) h =
    let (high, eh, h1) =
      >>=-eq-ok (Hex.hex_nibble field a)
        (λ high. Hex.hex_nibble field b >>= λ low.
          decode_pairs field rest >>= λ output. ok ((high * 16 + low) ∷ output))
        h in
    let (low, el, h2) =
      >>=-eq-ok (Hex.hex_nibble field b)
        (λ low. decode_pairs field rest >>= λ output. ok ((high * 16 + low) ∷ output)) h1 in
    let (output, eo, h3) =
      >>=-eq-ok (decode_pairs field rest) (λ output. ok ((high * 16 + low) ∷ output)) h2 in
    rw (hex_nibble-agrees field a eh, hex_nibble-agrees field b el, mac_pairs-agrees field rest eo)
      (ap ok (ok_injective h3))

decode_hex_mac-encode_hex :
    (mac : Bytes) → IsFixed mac_bytes mac → decode_hex_mac (encode_hex mac) ≡ ok mac
unfolding decode_hex_mac decode_hex_exact
decode_hex_mac-encode_hex mac fixed =
    let (size, pairs) =
      >>-eq-ok
        (fail_if (not (length (encode_hex mac) == mac_bytes * 2))
          (invalid_hex_length (text "mac") (mac_bytes * 2) (length (encode_hex mac))))
        (decode_pairs (text "mac") (encode_hex mac))
        (decode-fixed mac_bytes mac (text "mac") fixed) in
    rw
      (
        fail_if-eq-ok (not (length (encode_hex mac) == mac_bytes * 2))
            (invalid_hex_length (text "mac") (mac_bytes * 2) (length (encode_hex mac))) size,
        mac_pairs-agrees (text "mac") (encode_hex mac) pairs,
      )
      refl

module _ (c : DiscoveryCodec) where
  authenticate_payload-fixed :
      (payload : DiscoveryPayload) (secret : Bytes) {mac : Bytes}
      → IsFaithful c
      → authenticate_payload c payload secret ≡ ok mac
      → IsFixed mac_bytes mac
  unfolding authenticate_payload
  authenticate_payload-fixed payload secret {mac = mac} faithful h =
      let (bytes, eb, em) =
        >>=-eq-ok (map_err json (c.to_vec payload)) (λ b. map_err mac_key (c.hmac secret b)) h in
      let made : c.hmac secret bytes ≡ ok mac = map_err-eq-ok mac_key (c.hmac secret bytes) em in
      (faithful.mac_size secret bytes mac made, faithful.mac_is_bytes secret bytes mac made)

  -- The properties that a peer advertises for itself read back as its id and its port.
  from_resolved_service-advertised :
      (self_id : PeerId) (port : ℕ) (secret : Bytes) (service : ResolvedService)
      {properties : List (Text × Text)}
      → IsFaithful c
      → IsFixed peer_id_bytes self_id
      → port ≤ 65535
      → discovery_txt_properties c self_id port secret ≡ ok properties
      → All (λ p. service.property p.0 ≡ some p.1) properties
      → from_resolved_service c service secret
        ≡ ok (record { peer_id = self_id; transport_port = port })
  unfolding from_resolved_service discovery_txt_properties required_txt parse_version parse_port
  from_resolved_service-advertised self_id port secret service faithful sized in_range h carried =
      let payload : DiscoveryPayload = record {
        version = discovery_version;
        peer = self_id;
        port = port;
      } in
      let rest : Bytes → Result SyncDiscoveryError (List (Text × Text)) = λ mac. ok (
        (key_version, to_decimal 3 discovery_version [])
        ∷ (key_peer, encode_hex self_id)
        ∷ (key_port, to_decimal 5 port [])
        ∷ (key_mac, encode_hex mac)
        ∷ []) in
      let (positive, h1) =
        >>-eq-ok (validate_port port) (authenticate_payload c payload secret >>= rest) h in
      let (mac, made, h2) = >>=-eq-ok (authenticate_payload c payload secret) rest h1 in
      let (has_version, (has_peer, (has_port, (has_mac, _)))) =
        subst (All (λ p. service.property p.0 ≡ some p.1)) (sym (ok_injective h2)) carried in
      let fixed = authenticate_payload-fixed payload secret faithful made in
      rw
        (
          has_version,
          has_peer,
          has_port,
          has_mac,
          decode-fixed peer_id_bytes self_id (text "sender") sized,
          parse-to_decimal 4 65535 port (omega arith) in_range,
          made,
          decode_hex_mac-encode_hex mac fixed,
          (constant_time_eq_iff mac mac refl).1 refl,
          positive,
        )
        refl

  -- A service that carries what `discovery_txt_properties` advertises for one peer is taken for that
  -- peer by another with the same secret, at an address that the service offers and before which none
  -- of those that it offers comes. The service has the type and the port that were advertised and
  -- offers an address, the peers' ids differ, and the advertised id has the size of its array. A MAC is
  -- 32 bytes.
  pub discovered_peer_from_resolved_service-advertised :
      (self_id other_id : PeerId) (port observed_at : ℕ) (secret : Bytes)
      (service : ResolvedService) (properties : List (Text × Text)) (offered : SocketAddr)
      → IsFaithful c
      → IsFixed peer_id_bytes self_id
      → self_id ≢ other_id
      → port ≤ 65535
      → discovery_txt_properties c self_id port secret ≡ ok properties
      → All (λ p. service.property p.0 ≡ some p.1) properties
      → service.ty_domain ≡ service_type
      → service.port ≡ port
      → Offers offered service.addresses port
      → (address : SocketAddr) × (discovered_peer_from_resolved_service c service other_id secret
            observed_at
          ≡ ok (some (record { peer_id = self_id; address = address; observed_at = observed_at })))
        × IsChosen address service.addresses port
  unfolding discovered_peer_from_resolved_service discovered_peer_from_metadata
  discovered_peer_from_resolved_service-advertised self_id other_id port observed_at secret service
        properties offered faithful sized different in_range h carried typed on_port offers =
      let (address, reachable, chosen) =
        service_address-chooses service.addresses port offered offers in
      (
        address,
        rw
            (
              (text_eq_iff service.ty_domain service_type).1 typed,
              from_resolved_service-advertised self_id port secret service faithful sized in_range h
                  carried,
              text_eq_ne self_id other_id different,
              (==_iff service.port port).1 on_port,
              reachable,
            )
            refl,
        chosen,
      )
