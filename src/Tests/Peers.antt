-- ===== src/Tests/Peers.antt =====
-- The theorems on messages, samples, deadlines and connections at concrete values.
use rusteyes.Common.{ℕ, ◌+◌, ◌≡◌, ◌≢◌, ◌≤◌, ◌↔◌, refl, true, some, List, [], ◌∷◌, arith}
use rusteyes.Common.Text.{text, text_eq}
use rusteyes.Common.Map.{get}
use rusteyes.Common.Words.{secs}
use rusteyes.Common.Result.{ok}
use rusteyes.Common.Equality.{word_equality}
use rusteyes.Protocol.{Bytes, PeerId}
use rusteyes.Protocol.Hex.{
  encode_hex, decode_hex_exact, decode_pairs, IsDecoded, decode_hex_exact-encode_hex,
  decode_hex_exact-IsDecoded,
}
use rusteyes.Activity.{ActivityPoller, queue_samples, starting_at, remaining_at, is_finished_at}
use rusteyes.Activity.Account.{observed_time, queue_samples-observed}
use rusteyes.Activity.Deadline.{is_finished_at_iff, remaining_at_bounds}
use rusteyes.Transport.Connections.{
  ConnectionTracker, incoming, outgoing, desired_connection_direction, accepted, connection,
}
use rusteyes.Transport.Connections.Operations.{accept_inbound_event, peer_for_endpoint}
use rusteyes.Transport.Connections.Direction.{desired_connection_direction-opposite}
use rusteyes.Transport.Connections.Replay.{
  run, removes, records, authenticates, accept_inbound_event-never_replayed,
}

abbrev sample_bytes : Bytes
sample_bytes = 0 ∷ 171 ∷ 255 ∷ []

decode_hex_exact-encode_hex_example :
    decode_hex_exact 3 (encode_hex sample_bytes) (text "mac") ≡ ok sample_bytes
decode_hex_exact-encode_hex_example =
    decode_hex_exact-encode_hex sample_bytes (text "mac")
      (omega arith, (omega arith, (omega arith, tt)))

sample_decoded : decode_hex_exact 2 (text "0aFf") (text "mac") ≡ ok (10 ∷ 255 ∷ [])
unfolding decode_hex_exact decode_pairs
sample_decoded = refl

decode_hex_exact-IsDecoded_example : IsDecoded 2 (text "0aFf") (10 ∷ 255 ∷ [])
decode_hex_exact-IsDecoded_example =
    decode_hex_exact-IsDecoded 2 (text "0aFf") (text "mac") (10 ∷ 255 ∷ []) sample_decoded

-- Sampled once a second, and asleep for a minute before the last sample.
abbrev sample_poller : ActivityPoller
sample_poller = record { poll_interval = secs 1; last_sampled_at = some (secs 5); events = [] }

abbrev sample_samples : List (ℕ × ℕ)
sample_samples = (0, secs 6) ∷ (secs 20, secs 66) ∷ []

queue_samples-observed_example :
    observed_time (queue_samples sample_samples sample_poller).events + secs 5 ≡ secs 66
queue_samples-observed_example =
    queue_samples-observed sample_samples (secs 5) sample_poller refl
      (omega arith, (omega arith, tt))

is_finished_at_iff_example :
    (is_finished_at (starting_at (secs 1000) (secs 100) (secs 20)) (secs 119) ≡ true)
    ↔ (secs 100 + secs 20 ≤ secs 119)
is_finished_at_iff_example =
    is_finished_at_iff (secs 1000) (secs 100) (secs 20) (secs 119) (omega arith) (omega arith)

remaining_at_bounds_example :
    (let d = starting_at (secs 1000) (secs 100) (secs 20) in
      (remaining_at d (secs 110) ≤ secs 20)
      × (remaining_at d (secs 110) ≤ remaining_at d (secs 90)))
remaining_at_bounds_example =
    remaining_at_bounds (secs 1000) (secs 100) (secs 20) (secs 90) (secs 110) (omega arith)

abbrev first_peer : PeerId
first_peer = 1 ∷ 0 ∷ []

abbrev second_peer : PeerId
second_peer = 1 ∷ 9 ∷ []

desired_connection_direction-opposite_example :
    (desired_connection_direction first_peer second_peer ≡ outgoing)
    ↔ (desired_connection_direction second_peer first_peer ≡ incoming)
desired_connection_direction-opposite_example =
    desired_connection_direction-opposite first_peer second_peer (λ h. cc)

abbrev sample_tracker : ConnectionTracker ℕ
sample_tracker = record {
  self_id = first_peer;
  connections = (record { endpoint = 7; direction = incoming; peer_id = some second_peer }) ∷ [];
  highest_accepted_sequences = (second_peer, 4) ∷ [];
}

sample_accepted : (accept_inbound_event 7 second_peer 5 sample_tracker).1 ≡ accepted
unfolding accept_inbound_event peer_for_endpoint connection get text_eq
sample_accepted = refl

-- The peer reconnects, and the event comes again.
accept_inbound_event-never_replayed_example :
    (accept_inbound_event 8 second_peer 5 (
      run
        (removes 7 ∷ records 8 outgoing ∷ authenticates 8 second_peer ∷ [])
        (accept_inbound_event 7 second_peer 5 sample_tracker).0)).1
    ≢ accepted
accept_inbound_event-never_replayed_example =
    accept_inbound_event-never_replayed sample_tracker 7 8 second_peer 5 5
      (removes 7 ∷ records 8 outgoing ∷ authenticates 8 second_peer ∷ []) sample_accepted
      (omega arith)
