-- ===== src/Tests/Discoveries.antt =====
-- The theorem on discovery at a concrete service.
use rusteyes.Common.{
  ◌≡◌, ◌≢◌, refl, Option, none, some, List, [], ◌∷◌, All, arith, length, inl, if◌then◌else◌,
}
use rusteyes.Common.Text.{Text, text_eq}
use rusteyes.Common.Decimal.{to_decimal}
use rusteyes.Common.Result.{ok, ok-subst}
use rusteyes.Protocol.{mac_bytes}
use rusteyes.Protocol.Hex.{IsByte, encode_hex}
use rusteyes.Discovery.{
  DiscoveryCodec, ResolvedService, v4, v6, unknown_ip, SocketAddr, socket_v6, socket_addr,
  key_version, key_peer, key_port, key_mac, service_type, discovery_txt_properties,
  discovered_peer_from_resolved_service,
}
use rusteyes.Discovery.Accepted.{IsFaithful, discovered_peer_from_resolved_service-advertised}
use rusteyes.Discovery.Address.{Offers, IsChosen}
use rusteyes.Tests.Codecs.{sample_id, sample_id_IsFixed, sample_secret, zeros, zeros_are_bytes}

abbrev discovery_codec : DiscoveryCodec
discovery_codec = record {
  to_vec = λ payload. ok (payload.version ∷ payload.port ∷ payload.peer);
  hmac = λ key payload. ok zeros;
}

discovery_codec-IsFaithful : IsFaithful discovery_codec
discovery_codec-IsFaithful = record {
  mac_size = λ key payload mac h. ok-subst (λ bytes. length bytes ≡ mac_bytes) h refl;
  mac_is_bytes = λ key payload mac h. ok-subst (All IsByte) h zeros_are_bytes;
}

abbrev advertised : List (Text × Text)
advertised =
    (key_version, to_decimal 3 1 [])
    ∷ (key_peer, encode_hex sample_id)
    ∷ (key_port, to_decimal 5 4711 [])
    ∷ (key_mac, encode_hex zeros)
    ∷ []

abbrev property_of : List (Text × Text) → Text → Option Text
property_of [] key = none
property_of ((k, value) ∷ rest) key =
    let later = property_of rest key in if text_eq k key then some value else later

-- A service with three addresses, of which the second is the least and the last is unknown.
abbrev sample_service : ResolvedService
sample_service = record {
  ty_domain = service_type;
  port = 4711;
  property = property_of advertised;
  addresses = v6 (254 ∷ 128 ∷ []) 2 ∷ v4 (10 ∷ 0 ∷ 0 ∷ 7 ∷ []) ∷ unknown_ip ∷ [];
}

sample_properties :
    discovery_txt_properties discovery_codec sample_id 4711 sample_secret ≡ ok advertised
unfolding discovery_txt_properties
sample_properties = refl

sample_carried : All (λ p. sample_service.property p.0 ≡ some p.1) advertised
unfolding text_eq
sample_carried = (refl, (refl, (refl, (refl, tt))))

-- The address of version 6 is one that can be used.
sample-Offers : Offers (socket_v6 (254 ∷ 128 ∷ []) 4711 2) sample_service.addresses 4711
unfolding socket_addr
sample-Offers = inl refl

sample_id_differs : sample_id ≢ 9 ∷ []
sample_id_differs h = cc

discovered_peer_from_resolved_service-advertised_example :
    (address : SocketAddr) × (discovered_peer_from_resolved_service discovery_codec sample_service
        (9 ∷ [])
        sample_secret
        5
      ≡ ok (some (record { peer_id = sample_id; address = address; observed_at = 5 })))
    × IsChosen address sample_service.addresses 4711
discovered_peer_from_resolved_service-advertised_example =
    discovered_peer_from_resolved_service-advertised discovery_codec sample_id (9 ∷ []) 4711 5
      sample_secret sample_service advertised (socket_v6 (254 ∷ 128 ∷ []) 4711 2)
      discovery_codec-IsFaithful sample_id_IsFixed sample_id_differs (omega arith) sample_properties
      sample_carried refl refl sample-Offers
