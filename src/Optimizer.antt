-- ===== src/Optimizer.antt =====
-- Code of optimizer/.
pub mod Utils
pub mod Conjuncts
pub mod Folding
pub mod Tests
