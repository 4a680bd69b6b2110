-- ===== src/Server.antt =====
-- internal/adapters/grpc/server.go: how the daemon sends the logs of a step.
pub mod Chunks
