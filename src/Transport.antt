-- ===== src/Transport.antt =====
-- src/sync_transport.rs and the files below src/sync_transport: the transport of sync messages.
pub mod Connections
pub mod Session
pub mod Worker
pub mod Delivery
use rusteyes.Common.Text.{Text}
use rusteyes.Protocol.{SyncProtocolError}

-- `SyncTransportError`; the errors of other crates and of the discovery are their texts.
pub data SyncTransportError : Type 0 where
  missing_shared_secret missing_compatibility_fingerprint : SyncTransportError
  protocol : SyncProtocolError → SyncTransportError
  listen discovery : (message : Text) → SyncTransportError
  worker_stopped sequence_exhausted : SyncTransportError
