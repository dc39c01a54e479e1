-- ===== src/Relay/App.antt =====
-- packages/yakr-relay/src/yakr_relay/app.py: the endpoints of a relay. A handler returns its reply,
-- or the status of its `HTTPException`, with the state it leaves: also a request that fails can have
-- changed the state. A request reads the clock once.
pub mod Blobs
pub mod Pairing
pub mod Capabilities
pub mod Forwarding
mod Tests
use yakr.Prelude.{ℕ, Result, ok, err}
use yakr.Relay.BlobStore.{BlobStore}
use yakr.Relay.PairingStore.{PairingStore}
use yakr.Relay.CapabilityStore.{CapabilityGrantStore}

-- The three stores that `create_app` closes over.
pub record RelayState : Type 0 where
  pub store : BlobStore
  pub pairing_store : PairingStore
  pub capability_store : CapabilityGrantStore
