-- ===== src/Store.antt =====
-- delta/store.py: records written to and read from the Sibyl memory client.
pub mod Client
pub mod Fields
pub mod Payload
pub mod Decode
pub mod Entities
pub mod Plans
pub mod Listing
pub mod Work
pub mod Attempts
pub mod Recover
pub mod Kept
pub mod Owned
pub mod Isolated
pub mod Bodies
pub mod Clean
pub mod Handoffs
pub mod Bodiless
pub mod Scopes
pub mod Sweep
pub mod Previewed
pub mod Rebuild
pub mod Tampered
pub mod Rebuilt
pub mod Reread
pub mod Reissued
