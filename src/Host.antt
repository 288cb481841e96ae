-- ===== src/Host.antt =====
-- Package host: the plugin registry and its lifecycle.
pub mod State
pub mod Version
pub mod Slots
pub mod Check
pub mod Hooks
pub mod Register
pub mod Remove
pub mod Replace
pub mod Batch
pub mod View
pub mod Call
pub mod Invariant
mod Tests
