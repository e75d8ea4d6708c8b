-- ===== src/BufferShard.antt =====
-- server/buffer_shard.h and buffer_shard.cc: the store of one core.
pub mod Groups
pub mod Entries
pub mod Represents
pub mod Transparent
pub mod Appends
pub mod Accepts
pub mod Status
pub mod Consume
pub mod Drain
pub mod Ready
pub mod Interleaved
pub mod Deletes
pub mod Keys
pub mod KeptKeys
pub mod Limit
pub mod Overlap
pub mod Sample
pub mod Contract
pub mod Prefix
pub mod Filed
pub mod Takes
pub mod Parts
pub mod Scans
pub mod Sound
pub mod ReadStep
pub mod Reads
pub mod WriteStep
pub mod DeleteStep
pub mod TimeoutStep
pub mod ResetStep
pub mod Runs
pub mod Spill
pub mod Write
pub mod Read
pub mod Manage
mod Tests
mod RunTests
use transfer_queue.Prelude.{
  ℕ, suc, ◌+◌, ◌-◌, ◌*◌, ◌/◌, ◌%◌, ◌≡◌, Bool, true, false, ◌&&◌, not, List, [], ◌∷◌, ◌++◌, map,
  Option, none, some, is_some, Str, length, ltb, leb, ◌==◌, if◌then◌else◌,
}
use transfer_queue.Prelude.Int.{ℤ, pos, negsuc, ◌+ℤ◌, ◌-ℤ◌, to_int32}
use transfer_queue.Platform.{size_mod}
use transfer_queue.Platform.Runtime.{Runtime}
use transfer_queue.Action.{
  Action, Result, Error, ok, err, spill_count_mismatch, null_dereference, pure, throw, continue,
  ◌>>=◌, ◌>>◌, for_each,
}
use transfer_queue.Config.{TransferQueueConfig}
use transfer_queue.Proto.{Trajectory, TrajectoryGroup, MetaInfo, BufferStatus}
use transfer_queue.DedupFilter
use transfer_queue.DedupFilter.{DedupFilter}
use transfer_queue.DiskStorage
use transfer_queue.DiskStorage.{DiskStorage, Env}
use Groups.{
  GroupEntry, GroupMap, empty_entry, is_on_disk, is_complete, trajectories_size, find, erase,
  replace, store, entry_or_new, new_group, add_trajectory,
}

pub record BufferShard (F : Type 0) : Type 0 where
  pub dedup_filter : DedupFilter F
  pub disk_storage : DiskStorage
  pub groups : GroupMap F
  pub total_trajectories : ℕ
  pub total_consumed : ℕ
  pub disk_usage_bytes : ℤ

-- A shard with the process and the world around it.
pub record Core (W F : Type 0) : Type 0 where
  pub shard : BufferShard F
  pub env : Env W

module _ {W F : Type 0} where
  abbrev pub on_env : {A : Type 0} → Action (Env W) A → Action (Core W F) A
  on_env m s = ((m s.env).0, record s { env = (m s.env).1 })

  abbrev pub on_world : {A : Type 0} → Action W A → Action (Core W F) A
  on_world m = on_env (DiskStorage.lift m)

  abbrev pub get : Action (Core W F) (BufferShard F)
  get s = (ok s.shard, s)

  abbrev pub put : BufferShard F → Action (Core W F) (Unit {0})
  put shard s = (ok tt, record s { shard = shard })

-- The constructor: a filter for 100000 uids at a rate of 0.01, and a directory of its own.
unfoldable pub make : {W H F : Type 0} → Runtime W H F → TransferQueueConfig F → ℕ → BufferShard F
make rt cfg shard_id = record {
  dedup_filter = DedupFilter.make rt.double 100000 (rt.double.decimal 1 2);
  disk_storage = DiskStorage.make (
      cfg.spdk_bdev_name
      ++ (b'/' ∷ b's' ∷ b'h' ∷ b'a' ∷ b'r' ∷ b'd' ∷ b'_' ∷ rt.to_string shard_id));
  groups = [];
  total_trajectories = 0;
  total_consumed = 0;
  disk_usage_bytes = pos 0;
}

module _ {W H F : Type 0} (rt : Runtime W H F) where
  unfoldable pub start : Action (Core W F) (Unit {0})
  start = do
    shard ← get
    disk ← on_world (DiskStorage.init rt shard.disk_storage)
    put (record shard { disk_storage = disk })

  unfoldable pub stop : Action (Core W F) (Unit {0})
  stop = do
    shard ← get
    put (record shard { disk_storage = DiskStorage.shutdown shard.disk_storage })

  -- The sum of the loop of `estimate_memory_usage`.
  abbrev pub bytes_in_memory : GroupEntry F → ℕ
  bytes_in_memory e = elim e.group_ptr [ none ↦ 0 | some g ↦ rt.byte_size g ]

  unfoldable pub groups_memory : GroupMap F → ℕ
  groups_memory [] = 0
  groups_memory ((id, e) ∷ l) = bytes_in_memory e + groups_memory l

  unfoldable pub estimate_memory_usage : TransferQueueConfig F → BufferShard F → ℕ
  estimate_memory_usage cfg shard =
      (groups_memory shard.groups
        + (if cfg.uid_dedup
            then DedupFilter.bloom_bit_count shard.dedup_filter / 8
              + DedupFilter.size shard.dedup_filter * 64
            else 0))
      % size_mod
