-- ===== src/Prompt.antt =====
-- internal/adapters/agents/prompt: how the prompt of an agent is put together.
pub mod Text
pub mod Template
pub mod Assemble
pub mod Commands
