-- ===== src/Contract.antt =====
-- Package contract: the manifest vocabulary (contract/meta.go), the event envelope with its filter
-- and its topic pattern (contract/contract.go).
pub mod Meta
pub mod Event
pub mod Glob
