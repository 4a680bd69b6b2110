-- ===== src/Evolution.antt =====
-- internal/evolution: when the prompts of a project are evolved, and which candidates are kept.
pub mod Trigger
pub mod Fitness
