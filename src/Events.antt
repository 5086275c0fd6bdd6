-- ===== src/Events.antt =====
-- internal/events: the event bus.
pub mod Bus
