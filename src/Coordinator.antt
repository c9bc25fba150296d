-- ===== src/Coordinator.antt =====
-- Code of coordinator/.
pub mod Registry
pub mod Queries
