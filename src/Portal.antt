-- ===== src/Portal.antt =====
-- The HTTP portal (portal/): its bounded worker pool and its hub of event streams.
pub mod Server
pub mod Sse
