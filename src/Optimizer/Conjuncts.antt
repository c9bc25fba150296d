-- ===== src/Optimizer/Conjuncts.antt =====
-- Splitting, combining and normalising conjuncts (optimizer/utils.py) keep the value of a predicate.
mod Values
pub mod Normal
pub use Values.{evaluate_list, all_of, IsTruth}
