-- ===== src/Proto.antt =====
-- The messages of proto/transferqueue.proto, with their fields. `F` is
-- `double`; an `int32` or `int64` that the code never makes negative is a natural number.
use transfer_queue.Prelude.{ℕ, Bool, List, Option, Str}
use transfer_queue.Prelude.Int.{ℤ}

pub record ChatMessage : Type 0 where
  pub role : Str
  pub content : Str

pub record Trajectory (F : Type 0) : Type 0 where
  pub uid : Str
  pub instance_id : Str
  pub messages : List ChatMessage
  pub reward : F
  pub extra_info : List (Str × Str)

pub record TrajectoryGroup (F : Type 0) : Type 0 where
  pub instance_id : Str
  pub trajectories : List (Trajectory F)
  pub group_size : ℤ
  pub is_complete : Bool

pub record MetaInfo (F : Type 0) : Type 0 where
  pub total_samples : ℕ
  pub num_groups : ℕ
  pub avg_group_size : F
  pub avg_reward : F
  pub finished_group_ids : List Str

pub record BufferStatus : Type 0 where
  pub total_trajectories : ℕ
  pub total_consumed : ℕ
  pub pending_groups : ℕ
  pub incomplete_groups : ℕ
  pub memory_usage_bytes : ℕ
  pub disk_usage_bytes : ℤ

pub record ConfigRequest (F : Type 0) : Type 0 where
  pub group_size : ℤ
  pub task_type : Str
  pub max_memory_bytes : ℤ
  pub spill_to_disk_threshold : F
  pub uid_dedup : Bool
  pub group_timeout_seconds : ℤ

-- The RPC messages.
pub record BatchWriteRequest (F : Type 0) : Type 0 where
  pub trajectories : List (Trajectory F)

pub record BatchWriteResponse : Type 0 where
  pub success : Bool
  pub written_count : ℤ

pub record BatchReadRequest : Type 0 where
  pub max_groups : ℤ
  pub block : Bool
  pub timeout_ms : ℤ

pub record BatchReadResult (F : Type 0) : Type 0 where
  pub success : Bool
  pub message : Str
  pub groups : List (TrajectoryGroup F)
  pub meta_info : Option (MetaInfo F)

-- It has no field.
pub data GetStatusRequest : Type 0 where
  get_status_request : GetStatusRequest

pub record SubscribeRequest : Type 0 where
  pub prefetch_groups : ℤ

-- The HTTP messages.
pub record WriteRequest (F : Type 0) : Type 0 where
  pub uid : Str
  pub instance_id : Str
  pub messages : List ChatMessage
  pub reward : F
  pub extra_info : List (Str × Str)

pub record WriteResponse : Type 0 where
  pub success : Bool
  pub message : Str

pub record GetRolloutDataResponse (F : Type 0) : Type 0 where
  pub success : Bool
  pub message : Str
  pub trajectories : List (Trajectory F)
  pub meta_info : Option (MetaInfo F)

pub record ConfigResponse : Type 0 where
  pub success : Bool
  pub message : Str

pub record ResetResponse : Type 0 where
  pub success : Bool
  pub message : Str

pub record DeleteInstanceResponse : Type 0 where
  pub success : Bool
  pub message : Str
