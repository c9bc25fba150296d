-- ===== src/Lib.antt =====
-- distributed_sql: a distributed SQL engine in Python. A coordinator takes SQL text, binds and
-- optimizes it, cuts the plan into stages and tasks, and runs the tasks on Workers, which keep
-- themselves registered by heartbeats; joins hand runtime filters from their build to their probe
-- side, and operators reserve memory in nested accounts.
--
-- The parts and their files (paths of the program from src/distributed_sql/):
--   Common/Errors       common/exceptions.py: error codes, DistributedSQLError, public_task_error
--   Common/Protocol     common/protocol.py: the records that the services exchange
--   Planner/Types       planner/types.py: common_type, can_implicitly_cast
--   Planner/Values      the Python values of planner/expressions.py and the operators on them
--   Planner/Expressions planner/expressions.py: the expression classes and their types
--   Planner/Sql         their sql() texts; Planner/Evaluate their evaluate(); Planner/Like LIKE
--   Optimizer/Utils     optimizer/utils.py: walk_expression, conjuncts, map_expression
--   Optimizer/Folding   optimizer/rules.py: _fold_expression, applied bottom-up
--   Coordinator/Registry coordinator/registry.py: WorkerRegistry
--   Coordinator/Queries coordinator/queries.py: QueryService, with _run cut at its awaits
--   Planner/Logical     planner/logical.py: the operators of a plan and to_protocol
--   Physical            execution/physical.py: materialize_exchanges; Physical/Stages StagePlanner
--   Scheduler           execution/scheduler.py: _choose_worker and _run_task; Scheduler/Stages run
--   Operators           execution/operators.py: Sorting _external_sorted_rows, Batches filter,
--                       project, limit and order, Joins the hash join, Aggregates _AggregateState
--                       and the grouping loops, Windows frames and ranks
--   WorkerTasks         worker/tasks.py: WorkerTaskManager around the execution itself
--   RuntimeFilter       execution/runtime_filter.py: BloomFilter, MinMaxFilter, RuntimeFilter
--   Memory              execution/memory.py: MemoryAccount
-- Prelude holds lists, dictionaries, results and integers over the native numbers. Each part's
-- child modules hold its proofs, and Tests or Sample the concrete runs.
--
-- Correspondence. Methods that change an object return the new one; exceptions are the errors of a
-- Result, and where a method that raises has changed something before, the pair of the error and
-- the state is returned (Memory, Registry) or the header of the file says that it is not. Memory
-- accounts are shared, so they live in a heap and name their parent by its address. Methods that
-- hold a lock are one step; a coroutine is cut where it awaits, and a step relation gives every
-- interleaving. Times are natural numbers, and fresh ids are arguments. What Python does on floats,
-- decimals, dates and bytes, the SHA-256 digest of a key and the sizes that logarithms give are
-- parameters.
--
-- Fuel and loops. A memory account's chain has as much fuel as there are accounts, and a theorem
-- says that it is enough; the attempts of a task recurse on the attempts left; a client of result
-- pages has one page more than there are rows; the loop over stages has a round for each stage,
-- and a theorem says that it ends; batches are cut with as much fuel as there are rows.
--
-- Not modelled: the parser and the binder (they work on the syntax tree of a package), the rules on
-- plans, cost estimates, the join before it is partitioned and the sort-merge fallback of a partition,
-- cancellation checks within operators, shuffle files, object stores, the catalog's database, data sources, HTTP,
-- processes, metrics, the command line; the waiting inside an attempt of a task; spill files, whose
-- rows are a parameter of the sort; the JSON of a runtime filter.
mod Prelude
pub mod Common
pub mod Memory
pub mod Coordinator
pub mod Planner
pub mod Optimizer
pub mod Operators
pub mod Physical
pub mod RuntimeFilter
pub mod Scheduler
pub mod WorkerTasks
