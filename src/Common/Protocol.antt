-- ===== src/Common/Protocol.antt =====
-- common/protocol.py: the states and the records that Coordinator and Workers exchange, with the
-- checks that pydantic runs when a model is built. A date is a number of ticks.
use distributed_sql.Prelude.{ℕ, String, Bool, ◌&&◌, Option, List, Dict, leb}
use distributed_sql.Common.Errors.{ErrorDetail}

pub data DataType : Type 0 where
  null boolean int32 int64 float32 float64 decimal string binary date timestamp list struct :
      DataType

pub data PartitionStrategy : Type 0 where
  single round_robin hash broadcast unknown : PartitionStrategy

pub record Partition : Type 0 where
  pub partition_id : String
  pub ordinal : ℕ
  pub location : String
  pub strategy : PartitionStrategy

pub data PlanNodeType : Type 0 where
  scan project filter aggregate join limit order window grouping_sets exchange output : PlanNodeType

pub data QueryState : Type 0 where
  queued planning running succeeded failed canceled : QueryState

pub record Query : Type 0 where
  pub query_id : String
  pub sql : String
  pub state : QueryState
  pub created_at : ℕ
  pub updated_at : ℕ
  pub error : Option ErrorDetail

pub data StageState : Type 0 where
  pending running succeeded failed canceled : StageState

pub data TaskState : Type 0 where
  pending running succeeded failed canceled : TaskState

pub record Task : Type 0 where
  pub task_id : String
  pub query_id : String
  pub stage_id : String
  pub partition : Partition
  pub state : TaskState
  pub attempt_ids : List String

pub data AttemptState : Type 0 where
  created running succeeded failed canceled lost : AttemptState

-- The JSON object of an error: that of an `ErrorDetail`, or the class and the message of an
-- exception.
pub data ErrorValue : Type 0 where
  detail : ErrorDetail → ErrorValue
  described : (class message : String) → ErrorValue

pub record Attempt : Type 0 where
  pub attempt_id : String
  pub task_id : String
  pub attempt_number : ℕ
  pub worker_id : Option String
  pub state : AttemptState
  pub started_at : Option ℕ
  pub finished_at : Option ℕ
  pub error : Option ErrorValue

pub data WorkerState : Type 0 where
  registering active draining lost : WorkerState

pub record Worker : Type 0 where
  pub worker_id : String
  pub endpoint : String
  pub state : WorkerState
  pub slots : ℕ
  pub available_slots : ℕ
  pub memory_limit_bytes : ℕ
  pub lease_id : Option String
  pub lease_expires_at : Option ℕ
  pub registered_at : ℕ
  pub last_heartbeat_at : Option ℕ
  pub labels : Dict String

-- The field bounds of `Worker` and its model validator.
abbrev pub worker_is_valid : Worker → Bool
worker_is_valid w = leb 1 w.slots && leb 1 w.memory_limit_bytes && leb w.available_slots w.slots

pub record WorkerRegistration : Type 0 where
  pub worker_id : String
  pub endpoint : String
  pub slots : ℕ
  pub memory_limit_bytes : ℕ
  pub labels : Dict String

pub record WorkerHeartbeat : Type 0 where
  pub lease_id : String
  pub available_slots : ℕ
  pub state : WorkerState

abbrev pub worker_state_is : WorkerState → WorkerState → Bool
worker_state_is registering registering = Bool.true
worker_state_is active active = Bool.true
worker_state_is draining draining = Bool.true
worker_state_is lost lost = Bool.true
worker_state_is _ _ = Bool.false
