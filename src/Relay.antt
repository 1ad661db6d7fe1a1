-- ===== src/Relay.antt =====
-- relay/relay.py: the fetch relay.
pub mod Types
pub mod Limits
pub mod Url
pub mod Gate
pub mod Auth
pub mod Hop
pub mod Fetch
pub mod Handler
mod Examples
pub mod Store
