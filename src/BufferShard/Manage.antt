-- ===== src/BufferShard/Manage.antt =====
-- `delete_instance`, `reset`, `get_status`, `get_meta_info` and `check_group_timeouts` of
-- server/buffer_shard.cc.
use transfer_queue.Prelude.{
  Bool, ℕ, suc, ◌+◌, ◌*◌, true, false, List, [], ◌∷◌, Option, none, some, Str, length, leb, ◌==◌,
  if◌then◌else◌, ◌%◌, ◌^◌,
}
use transfer_queue.Prelude.Int.{pos, ◌-ℤ◌}
use transfer_queue.Platform.{Double}
use transfer_queue.Platform.Runtime.{Runtime}
use transfer_queue.Action.{Action, ok, pure, ◌>>=◌, ◌>>◌, for_each}
use transfer_queue.Config.{TransferQueueConfig}
use transfer_queue.Proto.{Trajectory, TrajectoryGroup, MetaInfo, BufferStatus}
use transfer_queue.DedupFilter
use transfer_queue.DiskStorage
use transfer_queue.BufferShard.{BufferShard, Core, get, put, on_world, estimate_memory_usage}
use transfer_queue.BufferShard.Groups.{
  GroupEntry, GroupMap, is_on_disk, is_complete, trajectories_size, find, erase,
}

module _ {W F : Type 0} where
  -- A future that is not waited for: its exception is dropped.
  abbrev pub detach : {A : Type 0} → Action (Core W F) A → Action (Core W F) (Unit {0})
  detach m s = (ok tt, (m s).1)

-- The offsets of the groups on disk.
unfoldable pub disk_offsets : {F : Type 0} → GroupMap F → List ℕ
disk_offsets [] = []
disk_offsets ((id, e) ∷ l) = if is_on_disk e then e.disk_offset ∷ disk_offsets l else disk_offsets l

-- The loop of `check_group_timeouts` at a time.
abbrev pub complete_group : {F : Type 0} → Option (TrajectoryGroup F) → Option (TrajectoryGroup F)
complete_group none = none
complete_group (some g) = some (record g { is_complete = true })

unfoldable pub expire_entry : {F : Type 0} → ℕ → ℕ → GroupEntry F → GroupEntry F
expire_entry now timeout e =
    if is_complete e
    then e
    else if leb (e.created_time + timeout) now
    then record e { group_ptr = complete_group e.group_ptr }
    else e

unfoldable pub expire : {F : Type 0} → ℕ → ℕ → GroupMap F → GroupMap F
expire now timeout [] = []
expire now timeout ((id, e) ∷ l) = (id, expire_entry now timeout e) ∷ expire now timeout l

module _ {W H F : Type 0} (rt : Runtime W H F) where
  -- An entry goes; its file, if it has one, is removed without waiting.
  unfoldable pub drop_entry :
      Bool → Str → GroupEntry F → BufferShard F → Action (Core W F) (Unit {0})
  drop_entry true id e shard = do
    put (record shard {
      groups = erase id shard.groups;
      disk_usage_bytes = shard.disk_usage_bytes -ℤ pos e.cached_bytes;
    })
    detach (on_world (DiskStorage.remove rt shard.disk_storage e.disk_offset))
  drop_entry false id e shard = put (record shard { groups = erase id shard.groups })

  unfoldable pub delete_found :
      Str → BufferShard F → Option (GroupEntry F) → Action (Core W F) (Unit {0})
  delete_found id shard none = pure tt
  delete_found id shard (some e) = drop_entry (is_on_disk e) id e shard

  unfoldable pub delete_instance : Str → Action (Core W F) (Unit {0})
  delete_instance instance_id = do
    shard ← get
    delete_found instance_id shard (find instance_id shard.groups)

  -- The members after `reset`.
  abbrev pub cleared_shard : BufferShard F → BufferShard F
  cleared_shard shard = record shard {
    groups = [];
    dedup_filter = DedupFilter.clear shard.dedup_filter;
    total_trajectories = 0;
    total_consumed = 0;
    disk_usage_bytes = pos 0;
  }

  unfoldable pub reset : Action (Core W F) (Unit {0})
  reset = do
    shard ← get
    let offsets = disk_offsets shard.groups
    put (cleared_shard shard)
    _ ← on_world (for_each (DiskStorage.remove rt shard.disk_storage) offsets)
    pure tt

  unfoldable pub check_group_timeouts : TransferQueueConfig F → Action (Core W F) (Unit {0})
  check_group_timeouts cfg = do
    now ← on_world rt.now
    shard ← get
    put (record shard { groups = expire now (cfg.group_timeout_seconds * 1000000000) shard.groups })

-- The loop of `get_status`: complete and incomplete groups, as the 32 bits of an `int32_t`.
unfoldable pub count_groups : {F : Type 0} → GroupMap F → ℕ × ℕ
count_groups [] = (0, 0)
count_groups ((id, e) ∷ l) =
    let (pending, incomplete) = count_groups l in
    if is_complete e then (suc pending % 2 ^ 32, incomplete) else (pending, suc incomplete % 2 ^ 32)

module _ {W H F : Type 0} (rt : Runtime W H F) where
  unfoldable pub get_status : TransferQueueConfig F → BufferShard F → BufferStatus
  get_status cfg shard =
      let (pending, incomplete) = count_groups shard.groups in
      record {
        total_trajectories = shard.total_trajectories;
        total_consumed = shard.total_consumed;
        pending_groups = pending;
        incomplete_groups = incomplete;
        memory_usage_bytes = estimate_memory_usage rt cfg shard;
        disk_usage_bytes = shard.disk_usage_bytes;
      }

-- The loop of `get_meta_info`.
abbrev pub stored_size : {F : Type 0} → GroupEntry F → ℕ
stored_size e = if is_on_disk e then e.cached_size else trajectories_size e

unfoldable pub total_samples : {F : Type 0} → GroupMap F → ℕ
total_samples [] = 0
total_samples ((id, e) ∷ l) = stored_size e + total_samples l

unfoldable pub finished_ids : {F : Type 0} → GroupMap F → List Str
finished_ids [] = []
finished_ids ((id, e) ∷ l) = if is_complete e then id ∷ finished_ids l else finished_ids l

module _ {F : Type 0} (d : Double F) where
  unfoldable pub add_rewards : F → List (Trajectory F) → F
  add_rewards total [] = total
  add_rewards total (t ∷ ts) = add_rewards (d.add total t.reward) ts

  abbrev pub group_rewards : F → Option (TrajectoryGroup F) → F
  group_rewards total none = total
  group_rewards total (some g) = add_rewards total g.trajectories

  unfoldable pub total_reward : F → GroupMap F → F
  total_reward total [] = total
  total_reward total ((id, e) ∷ l) = total_reward (group_rewards total e.group_ptr) l

  unfoldable pub get_meta_info : BufferShard F → MetaInfo F
  get_meta_info shard =
      let samples = total_samples shard.groups in
      let n = length shard.groups in
      record {
        total_samples = samples;
        num_groups = n;
        avg_group_size = if n == 0 then d.decimal 0 1 else d.div (d.of_uint samples) (d.of_uint n);
        avg_reward =
            if samples == 0
            then d.decimal 0 1
            else d.div (total_reward (d.decimal 0 1) shard.groups) (d.of_uint samples);
        finished_group_ids = finished_ids shard.groups;
      }
