-- ===== src/Transport/Connections/Operations.antt =====
-- src/sync_transport/connections.rs: the operations that change a `ConnectionTracker`.
use rusteyes.Common.{
  ℕ, Bool, not, ◌&&◌, Option, none, some, List, [], ◌∷◌, ◌++◌, map, if◌then◌else◌, leb, filter,
}
use rusteyes.Common.Text.{text_key, text_eq, text_lt}
use rusteyes.Common.Map.{get, insert}
use rusteyes.Common.Equality.{Equality}
use rusteyes.Protocol.{PeerId}
use rusteyes.Transport.Connections.{
  Connection, ConnectionDirection, ConnectionTracker, PeerAuthentication, authenticated_new_peer,
  authenticated_existing_peer, rejected_self, rejected_unknown_endpoint, EndpointRemoval,
  peer_disconnected, peer_still_connected, unauthenticated_endpoint, unknown_endpoint,
  InboundEventAcceptance, accepted, unauthenticated, sender_mismatch, replayed, has_peer,
  peer_is_connected, endpoint_to_keep, connection,
}

module _ {E : Type 0} ⦃e : Equality E⦄ where
  -- A change through `connection_mut`: of the first connection of the endpoint, if there is one.
  unfoldable pub change_connection :
      E → (Connection E → Connection E) → List (Connection E) → Option (List (Connection E))
  change_connection endpoint f [] = none
  change_connection endpoint f (c ∷ connections) =
      if e.same c.endpoint endpoint
      then some (f c ∷ connections)
      else elim (change_connection endpoint f connections) [
        | none ↦ none
        | some changed ↦ some (c ∷ changed)
      ]

  -- `record_endpoint`.
  unfoldable pub record_endpoint :
      E → ConnectionDirection → ConnectionTracker E → ConnectionTracker E
  unfolding change_connection
  record_endpoint endpoint direction t =
      elim (change_connection endpoint (λ c. record c { direction = direction }) t.connections) [
        | some changed ↦ record t { connections = changed }
        | none ↦ record t {
          connections =
              t.connections
              ++ (record { endpoint = endpoint; direction = direction; peer_id = none }) ∷ [];
        }
      ]

  -- `peer_for_endpoint`.
  unfoldable pub peer_for_endpoint : E → List (Connection E) → Option PeerId
  unfolding connection
  peer_for_endpoint endpoint connections = elim (connection endpoint connections) [
    | none ↦ none
    | some c ↦ c.peer_id
  ]

  -- The first connection of the endpoint, and the list without it.
  unfoldable pub take_connection :
      E → List (Connection E) → Option (Connection E × List (Connection E))
  take_connection endpoint [] = none
  take_connection endpoint (c ∷ connections) =
      if e.same c.endpoint endpoint
      then some (c, connections)
      else elim (take_connection endpoint connections) [
        | none ↦ none
        | some (found, rest) ↦ some (found, c ∷ rest)
      ]

  unfoldable pub removal_of : Option PeerId → List (Connection E) → EndpointRemoval
  unfolding peer_is_connected
  removal_of none rest = unauthenticated_endpoint
  removal_of (some peer) rest =
      if peer_is_connected peer rest then peer_still_connected peer else peer_disconnected peer

  -- `remove_endpoint`.
  unfoldable pub remove_endpoint : E → ConnectionTracker E → ConnectionTracker E × EndpointRemoval
  unfolding take_connection removal_of
  remove_endpoint endpoint t = elim (take_connection endpoint t.connections) [
    | none ↦ (t, unknown_endpoint)
    | some (found, rest) ↦ (record t { connections = rest }, removal_of found.peer_id rest)
  ]

  -- The test of `retain` in `collapse_duplicate_peer_connections`.
  unfoldable pub is_duplicate : PeerId → E → Connection E → Bool
  unfolding has_peer
  is_duplicate peer keep c = has_peer peer c.peer_id && not (e.same c.endpoint keep)

  -- `collapse_duplicate_peer_connections`: the connections kept, and the endpoints removed.
  unfoldable pub collapse_duplicate_peer_connections :
      PeerId → PeerId → List (Connection E) → List (Connection E) × List E
  unfolding endpoint_to_keep filter is_duplicate
  collapse_duplicate_peer_connections self peer connections =
      elim (endpoint_to_keep self peer connections) [
        | none ↦ (connections, [])
        | some keep ↦ (
          filter (λ c. not (is_duplicate peer keep c)) connections,
          map (λ c. c.endpoint) (filter (is_duplicate peer keep) connections),
        )
      ]

  -- `authenticate_peer` behind its two early returns; `had_peer` was computed before the change.
  unfoldable pub authenticate_changed :
      Bool
      → E
      → PeerId
      → ConnectionTracker E
      → List (Connection E)
      → ConnectionTracker E × PeerAuthentication E
  unfolding collapse_duplicate_peer_connections peer_for_endpoint has_peer
  authenticate_changed had_peer endpoint peer t changed =
      let (kept, closed) = collapse_duplicate_peer_connections t.self_id peer changed in
      (
        record t { connections = kept },
        record {
          result =
              if not had_peer && has_peer peer (peer_for_endpoint endpoint kept)
              then authenticated_new_peer peer
              else authenticated_existing_peer peer;
          endpoints_to_close = closed;
        },
      )

  -- `authenticate_peer`.
  unfoldable pub authenticate_peer :
      E → PeerId → ConnectionTracker E → ConnectionTracker E × PeerAuthentication E
  unfolding text_eq remove_endpoint change_connection peer_is_connected authenticate_changed
  authenticate_peer endpoint peer t =
      if text_eq peer t.self_id
      then (
        (remove_endpoint endpoint t).0,
        record { result = rejected_self peer; endpoints_to_close = endpoint ∷ [] },
      )
      else elim (change_connection endpoint (λ c. record c { peer_id = some peer }) t.connections) [
        | none ↦ (
          t,
          record { result = rejected_unknown_endpoint peer; endpoints_to_close = endpoint ∷ [] },
        )
        | some changed ↦
            authenticate_changed (peer_is_connected peer t.connections) endpoint peer t changed
      ]

  -- The tests of `accept_inbound_event` behind the first; `seen` is the highest sequence accepted.
  unfoldable pub accept_from :
      PeerId
      → PeerId
      → ℕ
      → Option ℕ
      → ConnectionTracker E
      → ConnectionTracker E × InboundEventAcceptance
  unfolding text_eq text_lt insert
  accept_from peer sender sequence seen t =
      if not (text_eq peer sender) then (t, sender_mismatch peer) else elim seen [
        | none ↦ (
          record t {
            highest_accepted_sequences = insert peer sequence t.highest_accepted_sequences;
          },
          accepted,
        )
        | some highest ↦ if leb sequence highest then (t, replayed highest) else (
          record t {
            highest_accepted_sequences = insert peer sequence t.highest_accepted_sequences;
          },
          accepted,
        )
      ]

  -- `accept_inbound_event`.
  unfoldable pub accept_inbound_event :
      E → PeerId → ℕ → ConnectionTracker E → ConnectionTracker E × InboundEventAcceptance
  unfolding peer_for_endpoint get accept_from
  accept_inbound_event endpoint sender sequence t =
      elim (peer_for_endpoint endpoint t.connections) [
        | none ↦ (t, unauthenticated)
        | some peer ↦ accept_from peer sender sequence (get peer t.highest_accepted_sequences) t
      ]
