-- ===== src/Transport/Connections/Replay.antt =====
-- src/sync_transport/connections.rs: the sequence numbers that `accept_inbound_event` records.
use rusteyes.Common.{
  ℕ, ◌≤◌, ◌<◌, ◌≡◌, ◌≢◌, refl, sym, subst, true, Option, none, some, List, [], ◌∷◌, arith, leb,
  Bool-cases, Option-cases, inl, inr,
}
use rusteyes.Common.Text.{text_key, text_eq, text_eq_iff}
use rusteyes.Common.Map.{get, insert, get-insert}
use rusteyes.Common.Equality.{Equality}
use rusteyes.Protocol.{PeerId}
use rusteyes.Transport.Connections.{
  ConnectionDirection, ConnectionTracker, InboundEventAcceptance, accepted, unauthenticated,
  sender_mismatch, replayed,
}
use rusteyes.Transport.Connections.Operations.{
  record_endpoint, remove_endpoint, authenticate_peer, accept_inbound_event, accept_from,
  peer_for_endpoint,
}

-- The calls that change a tracker.
pub data Call (E : Type 0) : Type 0 where
  records : E → ConnectionDirection → Call E
  authenticates : E → PeerId → Call E
  removes : E → Call E
  accepts : E → PeerId → (sequence : ℕ) → Call E

-- Events of the sender up to the sequence number have been accepted.
abbrev pub IsSeen : {E : Type 0} → PeerId → ℕ → ConnectionTracker E → Type 0
IsSeen sender sequence t =
    (highest : ℕ) × (get sender t.highest_accepted_sequences ≡ some highest) × (sequence ≤ highest)

module _ {E : Type 0} ⦃e : Equality E⦄ where
  pub step : Call E → ConnectionTracker E → ConnectionTracker E
  step (records endpoint direction) t = record_endpoint endpoint direction t
  step (authenticates endpoint peer) t = (authenticate_peer endpoint peer t).0
  step (removes endpoint) t = (remove_endpoint endpoint t).0
  step (accepts endpoint sender sequence) t = (accept_inbound_event endpoint sender sequence t).0

  pub run : List (Call E) → ConnectionTracker E → ConnectionTracker E
  run [] t = t
  run (call ∷ calls) t = run calls (step call t)

  record_endpoint-kept :
      (endpoint : E) (direction : ConnectionDirection) (t : ConnectionTracker E)
      → (record_endpoint endpoint direction t).highest_accepted_sequences
        ≡ t.highest_accepted_sequences
  unfolding record_endpoint
  record_endpoint-kept endpoint direction t = ground arith

  remove_endpoint-kept :
      (endpoint : E) (t : ConnectionTracker E)
      → (remove_endpoint endpoint t).0.highest_accepted_sequences ≡ t.highest_accepted_sequences
  unfolding remove_endpoint
  remove_endpoint-kept endpoint t = ground arith

  authenticate_peer-kept :
      (endpoint : E) (peer : PeerId) (t : ConnectionTracker E)
      → (authenticate_peer endpoint peer t).0.highest_accepted_sequences
        ≡ t.highest_accepted_sequences
  unfolding authenticate_peer
  authenticate_peer-kept endpoint peer t = ground (arith, remove_endpoint-kept endpoint t)

  -- How `accept_inbound_event` can end: it refuses, and changes nothing, or the sequence number is
  -- above all that were accepted of the sender, and is recorded.
  pub data AcceptOutcome (sender : PeerId) (sequence : ℕ) (t : ConnectionTracker E)
      : ConnectionTracker E × InboundEventAcceptance → Type 0 where
    turned_away :
        (answer : InboundEventAcceptance)
        → answer ≢ accepted
        → AcceptOutcome sender sequence t (t, answer)
    taken :
        ((highest : ℕ)
          → get sender t.highest_accepted_sequences ≡ some highest
          → highest < sequence)
        → AcceptOutcome sender sequence t (
          record t {
            highest_accepted_sequences = insert sender sequence t.highest_accepted_sequences;
          },
          accepted,
        )

  accept_from-AcceptOutcome :
      (sender : PeerId) (sequence : ℕ) (t : ConnectionTracker E) (seen : Option ℕ)
      → get sender t.highest_accepted_sequences ≡ seen
      → text_eq sender sender ≡ true
      → AcceptOutcome sender sequence t (accept_from sender sender sequence seen t)
  unfolding accept_from
  accept_from-AcceptOutcome sender sequence t none found hit = rw hit (taken (λ h e. cc))
  accept_from-AcceptOutcome sender sequence t (some highest) found hit =
      elim (Bool-cases (leb sequence highest)) [
        | inl old ↦ rw (hit, old) (turned_away (replayed highest) (λ h. cc))
        | inr fresh ↦ rw (hit, fresh) (taken (λ h e. ground arith))
      ]

  accept_from_any-AcceptOutcome :
      (peer sender : PeerId) (sequence : ℕ) (t : ConnectionTracker E)
      → AcceptOutcome sender sequence t
          (accept_from peer sender sequence (get peer t.highest_accepted_sequences) t)
  unfolding accept_from
  accept_from_any-AcceptOutcome peer sender sequence t = elim (Bool-cases (text_eq peer sender)) [
    | inr other ↦ rw other (turned_away (sender_mismatch peer) (λ h. cc))
    | inl hit ↦
        let same : peer ≡ sender = (text_eq_iff peer sender).0 hit in
        subst
          (λ p.
            AcceptOutcome sender sequence t
              (accept_from p sender sequence (get p t.highest_accepted_sequences) t))
          (sym same)
          (accept_from-AcceptOutcome sender sequence t (get sender t.highest_accepted_sequences)
            refl ((text_eq_iff sender sender).1 refl))
  ]

  pub accept_inbound_event-AcceptOutcome :
      (endpoint : E) (sender : PeerId) (sequence : ℕ) (t : ConnectionTracker E)
      → AcceptOutcome sender sequence t (accept_inbound_event endpoint sender sequence t)
  unfolding accept_inbound_event
  accept_inbound_event-AcceptOutcome endpoint sender sequence t =
      elim (Option-cases (peer_for_endpoint endpoint t.connections)) [
        | inl e ↦ rw (e, accept_inbound_event) (turned_away unauthenticated (λ h. cc))
        | inr (peer, e) ↦
            rw (e, accept_inbound_event) (accept_from_any-AcceptOutcome peer sender sequence t)
      ]

  accepted-IsSeen :
      (sender : PeerId) (sequence : ℕ) (t : ConnectionTracker E)
      {end : ConnectionTracker E × InboundEventAcceptance}
      → AcceptOutcome sender sequence t end
      → end.1 ≡ accepted
      → IsSeen sender sequence end.0
  accepted-IsSeen sender sequence t (turned_away answer refused) was = absurd (refused was)
  accepted-IsSeen sender sequence t (taken above) was = (
    sequence,
    ground (
      arith,
      get-insert sender sender sequence t.highest_accepted_sequences,
      text_eq_iff sender sender,
    ),
    ground arith,
  )

  accept-IsSeen :
      (sender other : PeerId) (sequence number : ℕ) (t : ConnectionTracker E)
      {end : ConnectionTracker E × InboundEventAcceptance}
      → AcceptOutcome other number t end
      → IsSeen sender sequence t
      → IsSeen sender sequence end.0
  accept-IsSeen sender other sequence number t (turned_away answer refused) seen = seen
  accept-IsSeen sender other sequence number t (taken above) (highest, found, bound) =
      elim (Bool-cases (text_eq sender other)) [
        | inl hit ↦
            let same : sender ≡ other = (text_eq_iff sender other).0 hit in
            let before : get other t.highest_accepted_sequences ≡ some highest =
              subst (λ s. get s t.highest_accepted_sequences ≡ some highest) same found in
            let less : highest < number = above highest before in
            (
              number,
              ground (arith, get-insert other sender number t.highest_accepted_sequences),
              omega arith,
            )
        | inr miss ↦ (
          highest,
          ground (arith, get-insert other sender number t.highest_accepted_sequences),
          bound,
        )
      ]

  step-IsSeen :
      (call : Call E) (sender : PeerId) (sequence : ℕ) (t : ConnectionTracker E)
      → IsSeen sender sequence t
      → IsSeen sender sequence (step call t)
  unfolding step
  step-IsSeen (records endpoint direction) sender sequence t (highest, found, bound) =
      (highest, ground (arith, record_endpoint-kept endpoint direction t), bound)
  step-IsSeen (authenticates endpoint peer) sender sequence t (highest, found, bound) =
      (highest, ground (arith, authenticate_peer-kept endpoint peer t), bound)
  step-IsSeen (removes endpoint) sender sequence t (highest, found, bound) =
      (highest, ground (arith, remove_endpoint-kept endpoint t), bound)
  step-IsSeen (accepts endpoint other number) sender sequence t seen =
      accept-IsSeen sender other sequence number t
        (accept_inbound_event-AcceptOutcome endpoint other number t) seen

  run-IsSeen :
      (calls : List (Call E)) (sender : PeerId) (sequence : ℕ) (t : ConnectionTracker E)
      → IsSeen sender sequence t
      → IsSeen sender sequence (run calls t)
  unfolding run
  run-IsSeen [] sender sequence t seen = seen
  run-IsSeen (call ∷ calls) sender sequence t seen =
      run-IsSeen calls sender sequence (step call t) (step-IsSeen call sender sequence t seen)

  refused :
      (sender : PeerId) (sequence : ℕ) (t : ConnectionTracker E)
      {end : ConnectionTracker E × InboundEventAcceptance}
      → AcceptOutcome sender sequence t end
      → IsSeen sender sequence t
      → end.1 ≢ accepted
  refused sender sequence t (turned_away answer other) seen = other
  refused sender sequence t (taken above) (highest, found, bound) =
      λ h. let less : highest < sequence = above highest found in omega arith

  -- Once a tracker has accepted an event of a sender, no later call of `accept_inbound_event` for
  -- that sender, on whatever endpoint and after whatever sequence of calls that record, authenticate
  -- and remove endpoints and accept events, accepts an event whose sequence number is not larger.
  pub accept_inbound_event-never_replayed :
      (t : ConnectionTracker E) (first second : E) (sender : PeerId) (sequence repeated : ℕ)
      (calls : List (Call E))
      → (accept_inbound_event first sender sequence t).1 ≡ accepted
      → repeated ≤ sequence
      → (accept_inbound_event second sender repeated
          (run calls (accept_inbound_event first sender sequence t).0)).1
        ≢ accepted
  accept_inbound_event-never_replayed t first second sender sequence repeated calls was below =
      let (highest, found, bound) =
        run-IsSeen calls sender sequence (accept_inbound_event first sender sequence t).0 (
          accepted-IsSeen sender sequence t
            (accept_inbound_event-AcceptOutcome first sender sequence t) was) in
      let later : ConnectionTracker E =
        run calls (accept_inbound_event first sender sequence t).0 in
      refused sender repeated later
        (accept_inbound_event-AcceptOutcome second sender repeated later)
        (highest, found, omega arith)
