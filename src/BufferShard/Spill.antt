-- ===== src/BufferShard/Spill.antt =====
-- `try_spill_groups` of server/buffer_shard.cc, in its two phases: the choice of the groups, and,
-- once they are on disk, the update of their entries.
use transfer_queue.Prelude.{
  ℕ, ◌+◌, ◌-◌, ◌%◌, true, false, List, [], ◌∷◌, map, Option, none, some, Str, length, leb, ◌==◌,
  if◌then◌else◌, ◌&&◌, Bool, is_some,
}
use transfer_queue.Prelude.Int.{pos, ◌+ℤ◌}
use transfer_queue.Platform.{size_mod}
use transfer_queue.Platform.Runtime.{Runtime}
use transfer_queue.Action.{Action, spill_count_mismatch, pure, throw, ◌>>=◌, ◌>>◌}
use transfer_queue.Config.{TransferQueueConfig}
use transfer_queue.Proto.{TrajectoryGroup}
use transfer_queue.DiskStorage
use transfer_queue.BufferShard.{
  BufferShard, Core, get, put, on_env, estimate_memory_usage, bytes_in_memory,
}
use transfer_queue.BufferShard.Groups.{GroupEntry, GroupMap, find, replace, trajectories_size}

-- A group that is in memory and complete.
abbrev pub spillable_group : {F : Type 0} → Option (TrajectoryGroup F) → Option (TrajectoryGroup F)
spillable_group none = none
spillable_group (some g) = if g.is_complete then some g else none

module _ {W H F : Type 0} (rt : Runtime W H F) where
  -- The loop over `groups_`: keys with copies of their groups, until enough bytes are chosen.
  unfoldable pub select_groups : ℕ → ℕ → GroupMap F → List (Str × TrajectoryGroup F)
  select_groups target_spill spilled [] = []
  select_groups target_spill spilled ((id, e) ∷ l) = elim (spillable_group e.group_ptr) [
    | none ↦ select_groups target_spill spilled l
    | some g ↦ elim (leb target_spill (spilled + rt.byte_size g)) [
      | true ↦ (id, g) ∷ []
      | false ↦ (id, g) ∷ select_groups target_spill (spilled + rt.byte_size g) l
    ]
  ]

  unfoldable pub sum_bytes : List (Str × TrajectoryGroup F) → ℕ
  sum_bytes [] = 0
  sum_bytes ((id, g) ∷ l) = rt.byte_size g + sum_bytes l

  abbrev pub threshold : TransferQueueConfig F → ℕ
  threshold cfg =
      rt.double.to_uint
        (rt.double.mul (rt.double.of_uint cfg.max_memory_bytes) cfg.spill_to_disk_threshold)

  -- `current_mem - static_cast<size_t>(max_memory_bytes * 0.7)`, which wraps below 0.
  abbrev pub target_of : TransferQueueConfig F → ℕ → ℕ
  target_of cfg current_mem =
      (current_mem
        + size_mod
        - rt.double.to_uint
            (rt.double.mul (rt.double.of_uint cfg.max_memory_bytes) (rt.double.decimal 7 1))
          % size_mod)
      % size_mod

  -- The first phase; nothing is changed.
  unfoldable pub choose_groups :
      TransferQueueConfig F → BufferShard F → List (Str × TrajectoryGroup F)
  choose_groups cfg shard =
      let current_mem = estimate_memory_usage rt cfg shard in
      if leb current_mem (threshold cfg)
      then []
      else select_groups (target_of cfg current_mem) 0 shard.groups

  -- The entry of a group that is on disk now.
  unfoldable pub spilled_entry : ℕ → GroupEntry F → GroupEntry F
  spilled_entry offset e = record e {
    disk_offset = offset;
    cached_size = trajectories_size e;
    cached_bytes = bytes_in_memory rt e;
    group_ptr = none;
  }

  unfoldable pub commit_one : Str → ℕ → BufferShard F → BufferShard F
  commit_one id offset shard = elim (find id shard.groups) [
    | none ↦ shard
    | some e ↦ record shard {
      groups = replace id (spilled_entry offset e) shard.groups;
      disk_usage_bytes = shard.disk_usage_bytes +ℤ pos (bytes_in_memory rt e);
    }
  ]

  -- The second phase: the loop over the keys, with the offset of each.
  unfoldable pub commit_spill : List Str → List ℕ → BufferShard F → BufferShard F
  commit_spill (id ∷ ids) (offset ∷ offsets) shard =
      commit_spill ids offsets (commit_one id offset shard)
  commit_spill _ _ shard = shard

  -- The continuation of `spill_batch`.
  unfoldable pub commit_chosen : List (Str × TrajectoryGroup F) → List ℕ → Action (Core W F) ℕ
  commit_chosen chosen offsets = do
    later ← get
    if length chosen == length offsets
        then (put (commit_spill (map (λ c. c.0) chosen) offsets later) >> pure (sum_bytes chosen))
        else throw spill_count_mismatch

  -- Whether the future of `try_spill_groups` is still pending when it is returned: the file of the
  -- first group is being written. Otherwise nothing was chosen, or the first group failed before.
  abbrev pub waits_for : Bool → List (Str × TrajectoryGroup F) → Bool
  waits_for initialized [] = false
  waits_for initialized ((id, g) ∷ cs) = initialized && is_some (rt.serialize g)

  unfoldable pub spill_waits : TransferQueueConfig F → BufferShard F → Bool
  spill_waits cfg shard = waits_for shard.disk_storage.initialized (choose_groups cfg shard)

  -- What follows the choice. If none was chosen there is nothing to wait for.
  unfoldable pub spill_chosen : BufferShard F → List (Str × TrajectoryGroup F) → Action (Core W F) ℕ
  spill_chosen shard [] = pure 0
  spill_chosen shard (c ∷ cs) = do
    let chosen = c ∷ cs
    offsets ← on_env (DiskStorage.spill_batch rt shard.disk_storage (map (λ c. c.1) chosen))
    commit_chosen chosen offsets

  unfoldable pub try_spill_groups : TransferQueueConfig F → Action (Core W F) ℕ
  try_spill_groups cfg = do shard ← get; spill_chosen shard (choose_groups cfg shard)
