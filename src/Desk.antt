-- ===== src/Desk.antt =====
-- internal/desk: one materialized voice session.
pub mod Fsm
pub mod Session
pub mod Server
pub mod Loop
