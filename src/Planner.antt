-- ===== src/Planner.antt =====
-- Code of planner/.
pub mod Types
pub mod Values
pub mod Like
pub mod Logical
pub mod Expressions
pub mod Sql
pub mod Evaluate
pub mod Sample
