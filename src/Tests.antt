-- ===== src/Tests.antt =====
-- Runs of the models at concrete inputs, and each theorem at an input that meets its hypotheses.
mod Fsm
mod Bus
mod Session
mod Store
mod Bridge
mod Dispatch
mod Outbox
mod Notify
mod Turn
mod Restart
mod Runs
