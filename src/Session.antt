-- ===== src/Session.antt =====
-- internal/application/session: the life of capture sessions.
pub mod Targets
pub mod Sources
pub mod Service
pub mod Create
pub mod Stop
pub mod Nodes
pub mod Agents
pub mod Reconcile
pub mod Restore
pub mod Listing
pub mod Advance
pub mod Tests
