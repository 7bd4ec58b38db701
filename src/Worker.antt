-- ===== src/Worker.antt =====
-- The worker package: what runs beside the executor on a worker.
pub mod Run
pub mod Mode
pub mod Loop
pub mod Preflight
pub mod Supervision
