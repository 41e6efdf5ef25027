-- ===== src/Network.antt =====
-- src/p4net/network: bringing a topology up and down.
pub mod Directions
pub mod Durations
pub mod Pings
pub mod Calls
pub mod Start
pub mod Stop
pub mod Resources
pub mod Tracking
pub mod Wiring
pub mod Starting
pub mod Releasing
pub mod Stages
pub mod Rollback
pub mod Life
pub mod Examples
