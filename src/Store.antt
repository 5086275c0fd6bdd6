-- ===== src/Store.antt =====
-- internal/store: the durable state.
pub mod Job
pub mod Jobs
pub mod Outbox
