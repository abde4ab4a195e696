-- ===== src/Transport/Worker/Peers.antt =====
-- src/sync_transport/worker.rs: the peers that the runtime has been told of, and those connected.
use rusteyes.Common.{
  ◌≡◌, refl, sym, ◌∙◌, subst, Bool, true, false, not, ◌&&◌, ◌||◌, Option, none, some, List, [], ◌∷◌,
  arith, Bool-cases, Option-cases, inl, inr,
}
use rusteyes.Common.Text.{text_eq, text_eq_iff}
use rusteyes.Common.Equality.{Equality}
use rusteyes.Protocol.{PeerId}
use rusteyes.Runtime.{
  SyncTransportEvent, peer_authenticated, peer_disconnected, peer_rejected, domain,
}
use rusteyes.Transport.Connections.{Connection, ConnectionTracker, has_peer, peer_is_connected}
use rusteyes.Transport.Connections.Operations.{
  remove_endpoint, take_connection, removal_of, peer_for_endpoint,
}
use rusteyes.Transport.Connections.Membership.{take_connection-peers}
use rusteyes.Transport.Worker.{
  WorkerState, emit, remove, close_untracked_endpoints, emit_removal, close_endpoint,
}

-- Whether the last that the log says of the peer is that it is authenticated.
abbrev pub announced : PeerId → List SyncTransportEvent → Bool
announced p [] = false
announced p (peer_authenticated peer ∷ log) = text_eq peer p || announced p log
announced p (peer_disconnected peer ∷ log) = not (text_eq peer p) && announced p log
announced p (peer_rejected peer reason ∷ log) = announced p log
announced p (domain peer ev ∷ log) = announced p log

-- The runtime has been told of exactly the peers that are connected, and the worker is not connected
-- to itself.
pub record IsAnnounced {E : Type 0} (log : List SyncTransportEvent) (t : ConnectionTracker E)
    : Type 0 where
  pub agree : (p : PeerId) → announced p log ≡ peer_is_connected p t.connections
  pub not_self : peer_is_connected t.self_id t.connections ≡ false

-- The endpoint is authenticated as no peer other than `sender`.
abbrev pub IsSteady : {E : Type 0} → ⦃e : Equality E⦄ → E → PeerId → ConnectionTracker E → Type 0
IsSteady endpoint sender t =
    (other : PeerId) → peer_for_endpoint endpoint t.connections ≡ some other → other ≡ sender

or-false : (a b : Bool) → (a || b) ≡ false → b ≡ false
or-false true b h = absurd (cc)
or-false false b h = h

module _ {E : Type 0} where
  pub close_untracked_endpoints-events :
      (endpoints : List E) (w : WorkerState E)
      → ((close_untracked_endpoints endpoints w).events ≡ w.events)
        × ((close_untracked_endpoints endpoints w).tracker ≡ w.tracker)
  unfolding close_untracked_endpoints remove
  close_untracked_endpoints-events [] w = (refl, refl)
  close_untracked_endpoints-events (endpoint ∷ endpoints) w =
      close_untracked_endpoints-events endpoints (remove endpoint w)

module _ {E : Type 0} ⦃e : Equality E⦄ where
  still-agree :
      (p q : PeerId) (log : List SyncTransportEvent) (rest : List (Connection E))
      → announced q log ≡ (text_eq p q || peer_is_connected q rest)
      → peer_is_connected p rest ≡ true
      → announced q log ≡ peer_is_connected q rest
  still-agree p q log rest agree there = elim (Bool-cases (text_eq p q)) [
    | inr miss ↦ ground arith
    | inl hit ↦
        let here : peer_is_connected q rest ≡ true =
          subst (λ r. peer_is_connected r rest ≡ true) ((text_eq_iff p q).0 hit) there in
        ground arith
  ]

  gone-agree :
      (p q : PeerId) (log : List SyncTransportEvent) (rest : List (Connection E))
      → announced q log ≡ (text_eq p q || peer_is_connected q rest)
      → peer_is_connected p rest ≡ false
      → announced q (peer_disconnected p ∷ log) ≡ peer_is_connected q rest
  gone-agree p q log rest agree gone = elim (Bool-cases (text_eq p q)) [
    | inr miss ↦ ground arith
    | inl hit ↦
        let here : peer_is_connected q rest ≡ false =
          subst (λ r. peer_is_connected r rest ≡ false) ((text_eq_iff p q).0 hit) gone in
        ground arith
  ]

  -- A connection of the peer `o` is taken from those that the log agrees with.
  emit_removal-IsAnnounced :
      (o : Option PeerId) (rest : List (Connection E)) (w : WorkerState E)
      → ((q : PeerId) → announced q w.events ≡ (has_peer q o || peer_is_connected q rest))
      → peer_is_connected w.tracker.self_id rest ≡ false
      → (let taken : WorkerState E = record w {
        tracker = record w.tracker { connections = rest };
      } in
          let end = emit_removal (removal_of o rest) taken in IsAnnounced end.events end.tracker)
  unfolding emit_removal emit removal_of has_peer
  emit_removal-IsAnnounced none rest w agree not_self = record {
    agree = agree;
    not_self = not_self;
  }
  emit_removal-IsAnnounced (some p) rest w agree not_self =
      elim (Bool-cases (peer_is_connected p rest)) [
        | inl there ↦
            rw (there, removal_of)
              (record {
                agree = λ q. still-agree p q w.events rest (agree q) there;
                not_self = not_self;
              })
        | inr gone ↦
            rw (gone, removal_of)
              (record {
                agree = λ q. gone-agree p q w.events rest (agree q) gone;
                not_self = not_self;
              })
      ]

  -- Closing an endpoint, known or not, keeps the runtime's view exact.
  pub close_endpoint-IsAnnounced :
      (endpoint : E) (w : WorkerState E)
      → IsAnnounced w.events w.tracker
      → IsAnnounced (close_endpoint endpoint w).events (close_endpoint endpoint w).tracker
  unfolding close_endpoint remove_endpoint remove
  close_endpoint-IsAnnounced endpoint w h =
      elim (Option-cases (take_connection endpoint w.tracker.connections)) [
        | inl missing ↦ rw (missing, remove_endpoint) (unfold emit_removal in h)
        | inr ((found, rest), taken) ↦
            let member : (q : PeerId)
                → peer_is_connected q w.tracker.connections
                  ≡ (has_peer q found.peer_id || peer_is_connected q rest) =
              λ q. (take_connection-peers endpoint q w.tracker.connections found rest taken).0 in
            let own = member w.tracker.self_id in
            rw (taken, remove_endpoint)
              (emit_removal-IsAnnounced found.peer_id rest w (λ q. h.agree q ∙ member q)
                (or-false (has_peer w.tracker.self_id found.peer_id)
                  (peer_is_connected w.tracker.self_id rest) (sym own ∙ h.not_self)))
      ]
