-- ===== src/Transport/Worker/Hello.antt =====
-- src/sync_transport/worker.rs: the peers that the runtime has been told of, across a hello.
use rusteyes.Common.{
  ◌≡◌, ◌≢◌, refl, sym, ◌∙◌, subst, true, false, not, ◌&&◌, none, some, List, ◌∷◌, arith, Bool-cases,
  Option-cases, inl, inr,
}
use rusteyes.Common.Text.{text_eq, text_eq_iff}
use rusteyes.Common.Equality.{Equality}
use rusteyes.Protocol.{PeerId, Fingerprint}
use rusteyes.Runtime.{
  SyncTransportEvent, peer_authenticated, peer_rejected, incompatible_configuration,
}
use rusteyes.Transport.Connections.{
  Connection, ConnectionTracker, has_peer, peer_is_connected, PeerAuthenticationResult,
  authenticated_new_peer, authenticated_existing_peer, rejected_self, rejected_unknown_endpoint,
}
use rusteyes.Transport.Connections.Operations.{
  remove_endpoint, authenticate_peer, authenticate_changed, change_connection, take_connection,
  peer_for_endpoint, collapse_duplicate_peer_connections,
}
use rusteyes.Transport.Connections.Membership.{
  take_connection-peers, set_peer, set_peer-connected, set_peer-others, set_peer-only,
}
use rusteyes.Transport.Connections.Collapse.{collapse_others, collapse_kept, collapse_only}
use rusteyes.Transport.Worker.{
  WorkerState, emit, close_untracked_endpoints, emit_authentication, authenticate,
  handle_peer_hello,
}
use rusteyes.Transport.Worker.Peers.{
  announced, IsAnnounced, IsSteady, close_endpoint-IsAnnounced, close_untracked_endpoints-events,
}

-- The log after an authentication.
abbrev log_after : PeerAuthenticationResult → List SyncTransportEvent → List SyncTransportEvent
log_after (authenticated_new_peer peer) log = peer_authenticated peer ∷ log
log_after (authenticated_existing_peer peer) log = log
log_after (rejected_self peer) log = log
log_after (rejected_unknown_endpoint peer) log = log

module _ {E : Type 0} where
  emit_authentication-log :
      (r : PeerAuthenticationResult) (w : WorkerState E)
      → ((emit_authentication r w).events ≡ log_after r w.events)
        × ((emit_authentication r w).tracker ≡ w.tracker)
  unfolding emit_authentication emit
  emit_authentication-log (authenticated_new_peer peer) w = (refl, refl)
  emit_authentication-log (authenticated_existing_peer peer) w = (refl, refl)
  emit_authentication-log (rejected_self peer) w = (refl, refl)
  emit_authentication-log (rejected_unknown_endpoint peer) w = (refl, refl)

module _ {E : Type 0} ⦃e : Equality E⦄ where
  -- The endpoint's connection, in the list `changed`, has been given the peer `p`.
  module _ (endpoint : E) (p : PeerId) (log : List SyncTransportEvent) (t : ConnectionTracker E)
      (changed : List (Connection E)) (other_self : t.self_id ≢ p)
      (set : change_connection endpoint (set_peer p) t.connections ≡ some changed)
      (steady : IsSteady endpoint p t) (h : IsAnnounced log t) where
    kept_others :
        (q : PeerId)
        → p ≢ q
        → peer_is_connected q (collapse_duplicate_peer_connections t.self_id p changed).0
          ≡ peer_is_connected q t.connections
    kept_others q ne =
        collapse_others t.self_id p q changed ne
        ∙ set_peer-others endpoint p q t.connections changed ne steady set

    kept_peer :
        peer_is_connected p (collapse_duplicate_peer_connections t.self_id p changed).0 ≡ true
    kept_peer =
        collapse_kept t.self_id p changed
          (set_peer-connected endpoint p t.connections changed set).0

    shown :
        peer_is_connected p t.connections ≡ false
        → has_peer p
            (peer_for_endpoint endpoint (collapse_duplicate_peer_connections t.self_id p changed).0)
          ≡ true
    unfolding has_peer
    shown free =
        let same =
          collapse_only t.self_id p endpoint changed
            (set_peer-only endpoint p t.connections changed free set) in
        rw (same, (set_peer-connected endpoint p t.connections changed set).1)
          ((text_eq_iff p p).1 refl)

    authenticate_changed-IsAnnounced :
        (let end = authenticate_changed (peer_is_connected p t.connections) endpoint p t changed in
          IsAnnounced (log_after end.1.result log) end.0)
    unfolding authenticate_changed has_peer
    authenticate_changed-IsAnnounced = elim (Bool-cases (peer_is_connected p t.connections)) [
      | inl had ↦ rw had (record {
        agree = λ q. elim (Bool-cases (text_eq p q)) [
          | inl hit ↦
              subst
                (λ r.
                  announced r log
                  ≡ peer_is_connected r (collapse_duplicate_peer_connections t.self_id p changed).0)
                ((text_eq_iff p q).0 hit) (h.agree p ∙ had ∙ sym kept_peer)
          | inr miss ↦ h.agree q ∙ sym (kept_others q (λ same. ground (arith, text_eq_iff p q)))
        ];
        not_self = kept_others t.self_id (λ same. other_self (sym same)) ∙ h.not_self;
      })
      | inr free ↦
          rw (free, shown free)
            (record {
              agree = λ q. elim (Bool-cases (text_eq p q)) [
                | inl hit ↦ rw hit (
                    sym (
                      subst
                        (λ r.
                          peer_is_connected r
                            (collapse_duplicate_peer_connections t.self_id p changed).0
                          ≡ true)
                        ((text_eq_iff p q).0 hit) kept_peer))
                | inr miss ↦
                    rw miss
                      (h.agree q ∙ sym (kept_others q (λ same. ground (arith, text_eq_iff p q))))
              ];
              not_self = kept_others t.self_id (λ same. other_self (sym same)) ∙ h.not_self;
            })
    ]

  removed-not_changed :
      (endpoint : E) (t : ConnectionTracker E) → (remove_endpoint endpoint t).0.self_id ≡ t.self_id
  unfolding remove_endpoint
  removed-not_changed endpoint t = ground arith

  -- A connection of no peer, or of this peer itself, is taken.
  removed-IsAnnounced :
      (endpoint : E) (log : List SyncTransportEvent) (t : ConnectionTracker E)
      → IsSteady endpoint t.self_id t
      → IsAnnounced log t
      → IsAnnounced log (remove_endpoint endpoint t).0
  unfolding remove_endpoint
  removed-IsAnnounced endpoint log t steady h =
      elim (Option-cases (take_connection endpoint t.connections)) [
        | inl missing ↦ rw (missing, remove_endpoint) h
        | inr ((found, rest), taken) ↦
            let at_endpoint : peer_for_endpoint endpoint t.connections ≡ found.peer_id =
              (take_connection-peers endpoint t.self_id t.connections found rest taken).1 in
            let nobody : found.peer_id ≡ none = elim (Option-cases found.peer_id) [
              | inl empty ↦ empty
              | inr (other, e') ↦
                  let same : other ≡ t.self_id = steady other (at_endpoint ∙ e') in
                  let member =
                    (take_connection-peers endpoint t.self_id t.connections found rest taken).0 in
                  let own : has_peer t.self_id found.peer_id ≡ true =
                    rw (e', has_peer) ((text_eq_iff other t.self_id).1 same) in
                  absurd (let u : true ≡ false = sym (member ∙ (rw own refl)) ∙ h.not_self in cc)
            ] in
            let member : (q : PeerId)
                → peer_is_connected q t.connections ≡ peer_is_connected q rest =
              λ q.
                (take_connection-peers endpoint q t.connections found rest taken).0
                ∙ (rw (nobody, has_peer) refl) in
            rw (taken, remove_endpoint)
              (record {
                agree = λ q. h.agree q ∙ member q;
                not_self = sym (member t.self_id) ∙ h.not_self;
              })
      ]

  authenticate_peer-IsAnnounced :
      (endpoint : E) (sender : PeerId) (log : List SyncTransportEvent) (t : ConnectionTracker E)
      → IsSteady endpoint sender t
      → IsAnnounced log t
      → (let end = authenticate_peer endpoint sender t in
          IsAnnounced (log_after end.1.result log) end.0)
  unfolding authenticate_peer
  authenticate_peer-IsAnnounced endpoint sender log t steady h =
      elim (Bool-cases (text_eq sender t.self_id)) [
        | inl own ↦
            let same : sender ≡ t.self_id = (text_eq_iff sender t.self_id).0 own in
            rw (own, authenticate_peer)
              (removed-IsAnnounced endpoint log t (λ other e'. steady other e' ∙ same) h)
        | inr foreign ↦
            elim (Option-cases (change_connection endpoint (set_peer sender) t.connections)) [
              | inl unknown ↦ rw (foreign, authenticate_peer) (rw unknown h)
              | inr (changed, set) ↦
                  rw (foreign, authenticate_peer)
                    (rw set (
                      authenticate_changed-IsAnnounced endpoint sender log t changed
                        (λ same. ground (arith, text_eq_iff sender t.self_id)) set steady h))
            ]
      ]

  authenticate-IsAnnounced :
      (endpoint : E) (sender : PeerId) (w : WorkerState E)
      → IsSteady endpoint sender w.tracker
      → IsAnnounced w.events w.tracker
      → IsAnnounced (authenticate endpoint sender w).events (authenticate endpoint sender w).tracker
  unfolding authenticate
  authenticate-IsAnnounced endpoint sender w steady h =
      let (tracker, a) = authenticate_peer endpoint sender w.tracker in
      let changed : WorkerState E = record w { tracker = tracker } in
      let closed : WorkerState E = close_untracked_endpoints a.endpoints_to_close changed in
      let (log_is, tracker_is) = emit_authentication-log a.result closed in
      let (events_kept, tracker_kept) =
        close_untracked_endpoints-events a.endpoints_to_close changed in
      rw (log_is, tracker_is, events_kept, tracker_kept)
        (authenticate_peer-IsAnnounced endpoint sender w.events w.tracker steady h)

  -- A hello keeps the runtime's view exact: a peer is announced exactly while it is connected. The
  -- endpoint that the hello comes from is not authenticated as another peer.
  pub handle_peer_hello-IsAnnounced :
      (endpoint : E) (sender : PeerId) (compatibility : Fingerprint) (w : WorkerState E)
      → IsSteady endpoint sender w.tracker
      → IsAnnounced w.events w.tracker
      → (let after = handle_peer_hello endpoint sender compatibility w in
          IsAnnounced after.events after.tracker)
  unfolding handle_peer_hello
  handle_peer_hello-IsAnnounced endpoint sender compatibility w steady h =
      elim (Bool-cases (
        not (text_eq sender w.session.self_id)
        && not (text_eq compatibility w.session.compatibility))) [
          | inl bad ↦ rw bad (
              close_endpoint-IsAnnounced endpoint
                (emit (peer_rejected sender incompatible_configuration) w)
                (record { agree = h.agree; not_self = h.not_self }))
          | inr fine ↦ rw fine (authenticate-IsAnnounced endpoint sender w steady h)
        ]
