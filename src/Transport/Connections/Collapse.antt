-- ===== src/Transport/Connections/Collapse.antt =====
-- src/sync_transport/connections.rs: which peers are connected after
-- `collapse_duplicate_peer_connections`, and so after `authenticate_peer`.
use rusteyes.Common.{
  ◌≡◌, ◌≢◌, refl, sym, ◌∙◌, subst, Bool, true, false, not, ◌&&◌, Option, none, some, List, [], ◌∷◌,
  arith, Bool-cases, Option-cases, inl, inr, find, filter, any,
}
use rusteyes.Common.Text.{text_eq_iff}
use rusteyes.Common.Equality.{Equality}
use rusteyes.Protocol.{PeerId}
use rusteyes.Transport.Connections.{
  Connection, has_peer, peer_is_connected, endpoint_to_keep, endpoint_for_peer,
  desired_connection_direction, same_direction,
}
use rusteyes.Transport.Connections.Operations.{is_duplicate, collapse_duplicate_peer_connections}
use rusteyes.Transport.Connections.Membership.{any-filter, any-find, find-holds, filter-all}

has_peer_both :
    (p q : PeerId) (o : Option PeerId) → p ≢ q → has_peer p o ≡ true → has_peer q o ≡ false
unfolding has_peer
has_peer_both p q none ne h = refl
has_peer_both p q (some r) ne h = ground (arith, text_eq_iff r p, text_eq_iff r q)

-- Among the connections of a peer there is one with the endpoint.
record IsKept {E : Type 0} (p : PeerId) (l : List (Connection E)) (k : E) : Type 0 where
  at : Connection E
  is_endpoint : at.endpoint ≡ k
  is_peer : has_peer p at.peer_id ≡ true
  is_there : (t : Connection E → Bool) → t at ≡ true → any t l ≡ true

module _ {E : Type 0} where
  find-IsKept :
      (p : PeerId) (f : Connection E → Bool) (l : List (Connection E)) (x : Connection E)
      → find f l ≡ some x
      → has_peer p x.peer_id ≡ true
      → IsKept p l x.endpoint
  find-IsKept p f l x found h = record {
    at = x;
    is_endpoint = refl;
    is_peer = h;
    is_there = λ t tx. any-find f t l x found tx;
  }

  endpoint_for_peer-IsKept :
      (p : PeerId) (l : List (Connection E)) (k : E) → endpoint_for_peer p l ≡ some k → IsKept p l k
  unfolding endpoint_for_peer
  endpoint_for_peer-IsKept p l k h =
      let f : Connection E → Bool = λ c. has_peer p c.peer_id in
      elim (Option-cases (find f l)) [
        | inl missing ↦ absurd (let u : ◌≡◌ {A = Option E} none (some k) = rw missing at h in cc)
        | inr (x, found) ↦
            let u : ◌≡◌ {A = Option E} (some x.endpoint) (some k) = rw found at h in
            let same : x.endpoint ≡ k = cc in
            subst (IsKept p l) same (find-IsKept p f l x found (find-holds f l x found))
      ]

  endpoint_to_keep-IsKept :
      (self p : PeerId) (l : List (Connection E)) (k : E)
      → endpoint_to_keep self p l ≡ some k
      → IsKept p l k
  unfolding endpoint_to_keep
  endpoint_to_keep-IsKept self p l k h =
      let f : Connection E → Bool = λ c.
        has_peer p c.peer_id && same_direction c.direction (desired_connection_direction self p) in
      elim (Option-cases (find f l)) [
        | inl missing ↦ endpoint_for_peer-IsKept p l k (rw (missing, endpoint_to_keep) at h)
        | inr (x, found) ↦
            let u : ◌≡◌ {A = Option E} (some x.endpoint) (some k) =
              rw (found, endpoint_to_keep) at h in
            let same : x.endpoint ≡ k = cc in
            let both = find-holds f l x found in
            subst (IsKept p l) same (find-IsKept p f l x found (ground arith))
      ]

module _ {E : Type 0} ⦃e : Equality E⦄ where
  filter_others :
      (p q : PeerId) (k : E) (l : List (Connection E))
      → p ≢ q
      → peer_is_connected q (filter (λ c. not (is_duplicate p k c)) l) ≡ peer_is_connected q l
  unfolding filter any peer_is_connected is_duplicate
  filter_others p q k [] ne = refl
  filter_others p q k (c ∷ l) ne =
      ground (arith, filter_others p q k l ne, has_peer_both p q c.peer_id)

  pub collapse_others :
      (self p q : PeerId) (l : List (Connection E))
      → p ≢ q
      → peer_is_connected q (collapse_duplicate_peer_connections self p l).0 ≡ peer_is_connected q l
  unfolding collapse_duplicate_peer_connections
  collapse_others self p q l ne = elim (Option-cases (endpoint_to_keep self p l)) [
    | inl missing ↦ rw (missing, collapse_duplicate_peer_connections) refl
    | inr (k, found) ↦ rw (found, collapse_duplicate_peer_connections) (filter_others p q k l ne)
  ]

  pub collapse_kept :
      (self p : PeerId) (l : List (Connection E))
      → peer_is_connected p l ≡ true
      → peer_is_connected p (collapse_duplicate_peer_connections self p l).0 ≡ true
  unfolding collapse_duplicate_peer_connections is_duplicate peer_is_connected
  collapse_kept self p l h = elim (Option-cases (endpoint_to_keep self p l)) [
    | inl missing ↦ rw (missing, collapse_duplicate_peer_connections) h
    | inr (k, found) ↦
        let kept = endpoint_to_keep-IsKept self p l k found in
        let test : Connection E → Bool = λ c. has_peer p c.peer_id && not (is_duplicate p k c) in
        let same : e.same kept.at.endpoint k ≡ true =
          (e.same_iff kept.at.endpoint k).1 kept.is_endpoint in
        let passes : test kept.at ≡ true = rw (same, kept.is_peer) refl in
        rw (found, collapse_duplicate_peer_connections)
          (any-filter (λ c. has_peer p c.peer_id) (λ c. not (is_duplicate p k c)) l
            ∙ kept.is_there test passes)
  ]

  pub collapse_only :
      (self p : PeerId) (endpoint : E) (l : List (Connection E))
      → any (is_duplicate p endpoint) l ≡ false
      → (collapse_duplicate_peer_connections self p l).0 ≡ l
  unfolding collapse_duplicate_peer_connections is_duplicate
  collapse_only self p endpoint l only = elim (Option-cases (endpoint_to_keep self p l)) [
    | inl missing ↦ rw (missing, collapse_duplicate_peer_connections) refl
    | inr (k, found) ↦
        let kept = endpoint_to_keep-IsKept self p l k found in
        let same : e.same kept.at.endpoint endpoint ≡ true =
          elim (Bool-cases (e.same kept.at.endpoint endpoint)) [
            | inl hit ↦ hit
            | inr other ↦
                let double : is_duplicate p endpoint kept.at ≡ true =
                  rw (kept.is_peer, other) refl in
                let there = kept.is_there (is_duplicate p endpoint) double in
                absurd (let u : true ≡ false = sym there ∙ only in cc)
          ] in
        let here : endpoint ≡ k =
          sym ((e.same_iff kept.at.endpoint endpoint).0 same) ∙ kept.is_endpoint in
        rw (found, collapse_duplicate_peer_connections)
          (filter-all (is_duplicate p k) l
            (subst (λ j. any (is_duplicate p j) l ≡ false) here only))
  ]
