-- ===== src/Transport/Connections/Membership.antt =====
-- src/sync_transport/connections.rs: which peers are connected after each operation.
use rusteyes.Common.{
  ◌≡◌, ◌≢◌, refl, ap, ◌∙◌, subst, Bool, true, false, not, ◌&&◌, ◌||◌, Option, none, some, List, [],
  ◌∷◌, ◌++◌, arith, Bool-cases, Option-cases, inl, inr, find, filter, any,
}
use rusteyes.Common.Text.{text_eq_iff}
use rusteyes.Common.Equality.{Equality}
use rusteyes.Protocol.{PeerId}
use rusteyes.Transport.Connections.{
  Connection, ConnectionDirection, ConnectionTracker, has_peer, peer_is_connected, connection,
}
use rusteyes.Transport.Connections.Operations.{
  change_connection, record_endpoint, peer_for_endpoint, take_connection, is_duplicate,
}

module _ {A : Type 0} where
  pub any-filter :
      (p keep : A → Bool) (l : List A) → any p (filter keep l) ≡ any (λ x. p x && keep x) l
  unfolding any filter
  any-filter p keep [] = refl
  any-filter p keep (x ∷ l) = ground (arith, any-filter p keep l)

  pub any-find :
      (f p : A → Bool) (l : List A) (x : A) → find f l ≡ some x → p x ≡ true → any p l ≡ true
  unfolding any find
  any-find f p [] x h px = cc
  any-find f p (y ∷ l) x h px = ground (arith, any-find f p l x)

  pub find-holds : (f : A → Bool) (l : List A) (x : A) → find f l ≡ some x → f x ≡ true
  unfolding find
  find-holds f [] x h = cc
  find-holds f (y ∷ l) x h = ground (arith, find-holds f l x)

  pub filter-all : (f : A → Bool) (l : List A) → any f l ≡ false → filter (λ x. not (f x)) l ≡ l
  unfolding any filter
  filter-all f [] h = refl
  filter-all f (x ∷ l) h = ground (arith, filter-all f l)

-- A connection of no peer but `p` is none of another peer.
has_peer_steady :
    (p q : PeerId) (o : Option PeerId)
    → p ≢ q
    → ((other : PeerId) → o ≡ some other → other ≡ p)
    → has_peer q o ≡ false
unfolding has_peer
has_peer_steady p q none ne only = refl
has_peer_steady p q (some r) ne only = ground (arith, only r refl, text_eq_iff r q)

module _ {E : Type 0} ⦃e : Equality E⦄ where
  take_here :
      (endpoint : E) (c : Connection E) (l : List (Connection E))
      → e.same c.endpoint endpoint ≡ true
      → peer_for_endpoint endpoint (c ∷ l) ≡ c.peer_id
  unfolding peer_for_endpoint connection find
  take_here endpoint c l h = rw (h, peer_for_endpoint) refl

  peer_for_endpoint-later :
      (endpoint : E) (c : Connection E) (l : List (Connection E))
      → e.same c.endpoint endpoint ≡ false
      → peer_for_endpoint endpoint (c ∷ l) ≡ peer_for_endpoint endpoint l
  unfolding peer_for_endpoint connection find
  peer_for_endpoint-later endpoint c l h = rw (h, peer_for_endpoint) refl

  -- What is taken is the endpoint's connection, and the others stay.
  pub take_connection-peers :
      (endpoint : E) (q : PeerId) (l : List (Connection E)) (found : Connection E)
      (rest : List (Connection E))
      → take_connection endpoint l ≡ some (found, rest)
      → (peer_is_connected q l ≡ (has_peer q found.peer_id || peer_is_connected q rest))
        × (peer_for_endpoint endpoint l ≡ found.peer_id)
  unfolding take_connection any peer_is_connected
  take_connection-peers endpoint q [] found rest h = cc
  take_connection-peers endpoint q (c ∷ l) found rest h =
      elim (Bool-cases (e.same c.endpoint endpoint)) [
        | inl hit ↦
            let taken : ◌≡◌ {A = Option (Connection E × List (Connection E))} (some (c, l))
                (some (found, rest)) =
              rw hit at h in
            let head : c ≡ found = cc in
            let tail : l ≡ rest = cc in
            (
              subst
                  (λ d.
                    (has_peer q c.peer_id || peer_is_connected q l)
                    ≡ (has_peer q d.peer_id || peer_is_connected q rest))
                  head (rw tail refl),
              take_here endpoint c l hit ∙ ap (λ (d : Connection E). d.peer_id) head,
            )
        | inr miss ↦ elim (Option-cases (take_connection endpoint l)) [
          | inl gone ↦ ground arith
          | inr ((inner, others), go) ↦
              let taken : ◌≡◌ {A = Option (Connection E × List (Connection E))}
                  (some (inner, c ∷ others)) (some (found, rest)) =
                rw (miss, go) at h in
              let head : inner ≡ found = cc in
              let tail : c ∷ others ≡ rest = cc in
              let (member, peer) = take_connection-peers endpoint q l inner others go in
              (
                subst
                    (λ d.
                      (has_peer q c.peer_id || peer_is_connected q l)
                      ≡ (has_peer q d.peer_id || peer_is_connected q rest))
                    head
                    (subst
                      (λ r.
                        (has_peer q c.peer_id || peer_is_connected q l)
                        ≡ (has_peer q inner.peer_id || peer_is_connected q r))
                      tail (ground (arith))),
                peer_for_endpoint-later endpoint c l miss
                    ∙ peer
                    ∙ ap (λ (d : Connection E). d.peer_id) head,
              )
        ]
      ]

  change_connection-peers :
      (endpoint : E) (f : Connection E → Connection E) (q : PeerId)
      (l changed : List (Connection E))
      → ((c : Connection E) → (f c).peer_id ≡ c.peer_id)
      → change_connection endpoint f l ≡ some changed
      → peer_is_connected q changed ≡ peer_is_connected q l
  unfolding change_connection any peer_is_connected
  change_connection-peers endpoint f q [] changed same h = cc
  change_connection-peers endpoint f q (c ∷ l) changed same h =
      elim (Option-cases (change_connection endpoint f l)) [
        | inl stop ↦ ground (arith, same c)
        | inr (after, go) ↦
            ground (arith, same c, change_connection-peers endpoint f q l after same)
      ]

  peer_is_connected-append :
      (q : PeerId) (l : List (Connection E)) (endpoint : E) (direction : ConnectionDirection)
      → peer_is_connected q
          (l ++ (record { endpoint = endpoint; direction = direction; peer_id = none }) ∷ [])
        ≡ peer_is_connected q l
  unfolding peer_is_connected any has_peer
  peer_is_connected-append q [] endpoint direction = refl
  peer_is_connected-append q (c ∷ l) endpoint direction =
      ground (arith, peer_is_connected-append q l endpoint direction)

  -- A new endpoint, or a new direction of one, connects and disconnects no peer.
  pub record_endpoint-peers :
      (endpoint : E) (direction : ConnectionDirection) (q : PeerId) (t : ConnectionTracker E)
      → peer_is_connected q (record_endpoint endpoint direction t).connections
        ≡ peer_is_connected q t.connections
  unfolding record_endpoint
  record_endpoint-peers endpoint direction q t =
      let f : Connection E → Connection E = λ c. record c { direction = direction } in
      elim (Option-cases (change_connection endpoint f t.connections)) [
        | inl new ↦
            rw (new, record_endpoint) (peer_is_connected-append q t.connections endpoint direction)
        | inr (changed, known) ↦
            rw (known, record_endpoint)
              (change_connection-peers endpoint f q t.connections changed (λ c. refl) known)
      ]

  no_duplicate :
      (endpoint : E) (p : PeerId) (l : List (Connection E))
      → peer_is_connected p l ≡ false
      → any (is_duplicate p endpoint) l ≡ false
  unfolding any peer_is_connected is_duplicate
  no_duplicate endpoint p [] free = refl
  no_duplicate endpoint p (c ∷ l) free = ground (arith, no_duplicate endpoint p l)

  -- The endpoint's connection is given the peer.
  abbrev pub set_peer : PeerId → Connection E → Connection E
  set_peer p c = record c { peer_id = some p }

  -- After that the peer is connected, and no other peer's connection changes, if the endpoint had no
  -- peer or the same.
  pub set_peer-connected :
      (endpoint : E) (p : PeerId) (l changed : List (Connection E))
      → change_connection endpoint (set_peer p) l ≡ some changed
      → (peer_is_connected p changed ≡ true) × (peer_for_endpoint endpoint changed ≡ some p)
  unfolding change_connection any peer_is_connected has_peer
  set_peer-connected endpoint p [] changed h = cc
  set_peer-connected endpoint p (c ∷ l) changed h = elim (Bool-cases (e.same c.endpoint endpoint)) [
    | inl hit ↦
        let made : ◌≡◌ {A = Option (List (Connection E))} (some (set_peer p c ∷ l)) (some changed) =
          rw hit at h in
        let same : set_peer p c ∷ l ≡ changed = cc in
        (
          subst (λ m. peer_is_connected p m ≡ true) same (ground (arith, text_eq_iff p p)),
          subst (λ m. peer_for_endpoint endpoint m ≡ some p) same
              (take_here endpoint (set_peer p c) l hit),
        )
    | inr miss ↦ elim (Option-cases (change_connection endpoint (set_peer p) l)) [
      | inl stop ↦ ground arith
      | inr (after, go) ↦
          let made : ◌≡◌ {A = Option (List (Connection E))} (some (c ∷ after)) (some changed) =
            rw (miss, go) at h in
          let same : c ∷ after ≡ changed = cc in
          let (member, at_endpoint) = set_peer-connected endpoint p l after go in
          (
            subst (λ m. peer_is_connected p m ≡ true) same (ground arith),
            subst (λ m. peer_for_endpoint endpoint m ≡ some p) same
                (peer_for_endpoint-later endpoint c after miss ∙ at_endpoint),
          )
    ]
  ]

  pub set_peer-others :
      (endpoint : E) (p q : PeerId) (l changed : List (Connection E))
      → p ≢ q
      → ((other : PeerId) → peer_for_endpoint endpoint l ≡ some other → other ≡ p)
      → change_connection endpoint (set_peer p) l ≡ some changed
      → peer_is_connected q changed ≡ peer_is_connected q l
  unfolding change_connection any peer_is_connected
  set_peer-others endpoint p q [] changed ne steady h = cc
  set_peer-others endpoint p q (c ∷ l) changed ne steady h =
      elim (Bool-cases (e.same c.endpoint endpoint)) [
        | inl hit ↦
            let before : has_peer q c.peer_id ≡ false =
              has_peer_steady p q c.peer_id ne
                (λ other o. steady other (take_here endpoint c l hit ∙ o)) in
            let after : has_peer q (some p) ≡ false =
              has_peer_steady p q (some p) ne (λ other o. cc) in
            ground arith
        | inr miss ↦ elim (Option-cases (change_connection endpoint (set_peer p) l)) [
          | inl stop ↦ ground arith
          | inr (after, go) ↦
              let ih =
                set_peer-others endpoint p q l after ne
                  (λ other o. steady other (peer_for_endpoint-later endpoint c l miss ∙ o)) go in
              ground arith
        ]
      ]

  -- Only the endpoint's connection has a peer that no connection had.
  pub set_peer-only :
      (endpoint : E) (p : PeerId) (l changed : List (Connection E))
      → peer_is_connected p l ≡ false
      → change_connection endpoint (set_peer p) l ≡ some changed
      → any (is_duplicate p endpoint) changed ≡ false
  unfolding change_connection any peer_is_connected is_duplicate
  set_peer-only endpoint p [] changed free h = cc
  set_peer-only endpoint p (c ∷ l) changed free h = elim (Bool-cases (e.same c.endpoint endpoint)) [
    | inl hit ↦ let ih = no_duplicate endpoint p l (ground arith) in ground arith
    | inr miss ↦ elim (Option-cases (change_connection endpoint (set_peer p) l)) [
      | inl stop ↦ ground arith
      | inr (after, go) ↦
          let ih = set_peer-only endpoint p l after (ground arith) go in ground arith
    ]
  ]

  pub record_endpoint_self :
      (endpoint : E) (direction : ConnectionDirection) (t : ConnectionTracker E)
      → (record_endpoint endpoint direction t).self_id ≡ t.self_id
  unfolding record_endpoint
  record_endpoint_self endpoint direction t = ground arith
