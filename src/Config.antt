-- ===== src/Config.antt =====
-- common/config.h. The two settings that only ever change to positive values are natural numbers.
use transfer_queue.Prelude.{ℕ, Bool, true, false, [], ◌∷◌, Str, ◌*◌}
use transfer_queue.Prelude.Int.{ℤ, pos}
use transfer_queue.Platform.{Double}

pub record TransferQueueConfig (F : Type 0) : Type 0 where
  pub http_port : ℕ
  pub rpc_port : ℕ
  pub group_size : ℤ
  pub group_timeout_seconds : ℕ
  pub uid_dedup : Bool
  pub max_memory_bytes : ℕ
  pub spill_to_disk_threshold : F
  pub spdk_enabled : Bool
  pub spdk_bdev_name : Str
  pub task_type : Str

-- The initial values of the fields.
unfoldable pub default_config : {F : Type 0} → Double F → TransferQueueConfig F
default_config d = record {
  http_port = 8889;
  rpc_port = 8890;
  group_size = pos 16;
  group_timeout_seconds = 300;
  uid_dedup = true;
  max_memory_bytes = 8 * 1024 * 1024 * 1024;
  spill_to_disk_threshold = d.decimal 8 1;
  spdk_enabled = false;
  spdk_bdev_name = [];
  task_type = b'm' ∷ b'a' ∷ b't' ∷ b'h' ∷ [];
}
