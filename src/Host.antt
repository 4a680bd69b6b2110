-- ===== src/Host.antt =====
-- internal/host: what the host does besides running workflows.
pub mod Polls
pub mod Loop
pub mod Resume
