-- ===== src/Transport/Connections/Direction.antt =====
-- src/sync_transport/connections.rs: `desired_connection_direction` at the two ends.
use rusteyes.Common.{◌≡◌, ◌≢◌, ◌↔◌, arith}
use rusteyes.Common.Text.{text_lt-flip}
use rusteyes.Protocol.{PeerId}
use rusteyes.Transport.Connections.{incoming, outgoing, desired_connection_direction}

-- Two peers choose the same one of two connections between them: the one wants an outgoing
-- connection kept just when the other wants its incoming one kept. The peers are not one.
pub desired_connection_direction-opposite :
    (self peer : PeerId)
    → self ≢ peer
    → (desired_connection_direction self peer ≡ outgoing)
      ↔ (desired_connection_direction peer self ≡ incoming)
unfolding desired_connection_direction
desired_connection_direction-opposite self peer h = ground (arith, text_lt-flip self peer h)
