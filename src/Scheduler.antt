-- ===== src/Scheduler.antt =====
-- host/transport/scheduler.py: bounded, fair admission of SSH subprocess channels.
pub mod Tally
mod Examples
pub mod Waiter
pub mod ClassQueue
pub mod State
pub mod Grant
pub mod Sound
pub mod Calls
pub mod Run
