-- ===== src/Control.antt =====
-- The control plane: its durable records and the repository that holds them.
pub mod Models
pub mod Repository
