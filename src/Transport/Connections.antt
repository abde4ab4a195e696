-- ===== src/Transport/Connections.antt =====
-- src/sync_transport/connections.rs: `ConnectionTracker`, over endpoints with an equality.
pub mod Operations
pub mod Replay
pub mod Direction
pub mod Membership
pub mod Collapse
use rusteyes.Common.{
  ℕ, ◌≤◌, ◌<◌, ◌≡◌, refl, Bool, true, false, not, ◌&&◌, ◌||◌, Option, none, some, List, [], ◌∷◌,
  ◌++◌, map, if◌then◌else◌, leb, find, filter, any,
}
use rusteyes.Common.Text.{text_key, text_eq, text_lt}
use rusteyes.Common.Map.{BTreeMap, get, insert}
use rusteyes.Common.Equality.{Equality}
use rusteyes.Protocol.{PeerId}

pub data ConnectionDirection : Type 0 where
  incoming outgoing : ConnectionDirection

pub record Connection (E : Type 0) : Type 0 where
  pub endpoint : E
  pub direction : ConnectionDirection
  pub peer_id : Option PeerId

pub record ConnectionTracker (E : Type 0) : Type 0 where
  pub self_id : PeerId
  pub connections : List (Connection E)
  pub highest_accepted_sequences : BTreeMap PeerId ℕ

pub data PeerAuthenticationResult : Type 0 where
  authenticated_new_peer authenticated_existing_peer rejected_self rejected_unknown_endpoint :
      (peer_id : PeerId) → PeerAuthenticationResult

pub record PeerAuthentication (E : Type 0) : Type 0 where
  pub result : PeerAuthenticationResult
  pub endpoints_to_close : List E

pub data EndpointRemoval : Type 0 where
  peer_disconnected peer_still_connected : (peer_id : PeerId) → EndpointRemoval
  unauthenticated_endpoint unknown_endpoint : EndpointRemoval

pub data InboundEventAcceptance : Type 0 where
  accepted unauthenticated : InboundEventAcceptance
  sender_mismatch : (authenticated_peer_id : PeerId) → InboundEventAcceptance
  replayed : (highest_seen : ℕ) → InboundEventAcceptance

abbrev pub same_direction : ConnectionDirection → ConnectionDirection → Bool
same_direction incoming incoming = true
same_direction incoming outgoing = false
same_direction outgoing incoming = false
same_direction outgoing outgoing = true

-- `connection.peer_id == Some(peer_id)`.
unfoldable pub has_peer : PeerId → Option PeerId → Bool
unfolding text_eq
has_peer peer none = false
has_peer peer (some other) = text_eq other peer

-- `desired_connection_direction`.
unfoldable pub desired_connection_direction : PeerId → PeerId → ConnectionDirection
unfolding text_lt
desired_connection_direction self peer = if text_lt self peer then outgoing else incoming

unfoldable pub is_authenticated : Option PeerId → Bool
is_authenticated none = false
is_authenticated (some peer) = true

module _ {E : Type 0} where
  -- `ConnectionTracker::new`.
  unfoldable pub new : PeerId → ConnectionTracker E
  new self = record { self_id = self; connections = []; highest_accepted_sequences = [] }

  -- `peer_is_connected`.
  unfoldable pub peer_is_connected : PeerId → List (Connection E) → Bool
  unfolding any has_peer
  peer_is_connected peer = any (λ c. has_peer peer c.peer_id)

  endpoint_of : Option (Connection E) → Option E
  endpoint_of none = none
  endpoint_of (some c) = some c.endpoint

  -- `endpoint_for_peer`.
  unfoldable pub endpoint_for_peer : PeerId → List (Connection E) → Option E
  unfolding find has_peer endpoint_of
  endpoint_for_peer peer connections = endpoint_of (find (λ c. has_peer peer c.peer_id) connections)

  -- `authenticated_endpoints`.
  unfoldable pub authenticated_endpoints : List (Connection E) → List E
  unfolding filter is_authenticated
  authenticated_endpoints connections =
      map (λ c. c.endpoint) (filter (λ c. is_authenticated c.peer_id) connections)

  -- `endpoints`.
  unfoldable pub endpoints : List (Connection E) → List E
  endpoints = map (λ c. c.endpoint)

  -- `endpoint_to_keep`: the peer's first connection in the desired direction, or else its first.
  unfoldable pub endpoint_to_keep : PeerId → PeerId → List (Connection E) → Option E
  unfolding find has_peer desired_connection_direction endpoint_of endpoint_for_peer
  endpoint_to_keep self peer connections =
      elim (find
        (λ c.
          has_peer peer c.peer_id
          && same_direction c.direction (desired_connection_direction self peer))
        connections) [ some c ↦ some c.endpoint | none ↦ endpoint_for_peer peer connections ]

module _ {E : Type 0} ⦃e : Equality E⦄ where
  -- `connection`.
  unfoldable pub connection : E → List (Connection E) → Option (Connection E)
  unfolding find
  connection endpoint = find (λ c. e.same c.endpoint endpoint)
