-- ===== src/Bus.antt =====
-- The buses that a host has unless others are injected: MemEvents and MemHooks of package host, and
-- the host's own step on top of the hook bus.
pub mod Rising
pub mod Events
pub mod Hooks
mod Tests
