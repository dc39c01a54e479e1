-- ===== src/Relay.antt =====
-- The relay: packages/yakr-relay/src/yakr_relay.
pub mod BlobStore
pub mod CapabilityStore
pub mod PairingStore
pub mod Auth
pub mod App
mod Tests
