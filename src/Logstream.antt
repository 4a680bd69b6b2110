-- ===== src/Logstream.antt =====
-- internal/logstream: the log lines of running workflows.
pub mod Broadcaster
