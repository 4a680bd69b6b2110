-- ===== src/Docker.antt =====
-- internal/adapters/docker: the container runtime.
pub mod Ignore
pub mod Session
pub mod Pool
