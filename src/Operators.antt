-- ===== src/Operators.antt =====
-- Code of execution/operators.py. A batch is the list of its rows: what pyarrow makes of rows under
-- a schema is a parameter where a batch is built from rows. Operators are generators; the list of
-- the batches that one yields stands for it, and where it raises, the error alone. Cancellation
-- checks and the counters of `OperatorMetrics` are not modelled.
pub mod Aggregates
pub mod Batches
pub mod Joins
pub mod Sorting
pub mod Windows
pub mod Tests
