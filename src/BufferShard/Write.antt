-- ===== src/BufferShard/Write.antt =====
-- `write` and `batch_write` of server/buffer_shard.cc.
use transfer_queue.Prelude.{
  ℕ, suc, Bool, true, false, List, [], ◌∷◌, none, some, Str, if◌then◌else◌, ◌&&◌, not,
}
use transfer_queue.Platform.Runtime.{Runtime}
use transfer_queue.Action.{Action, Result, ok, err, not_ready, continue, pure, ◌>>=◌, ◌>>◌}
use transfer_queue.Config.{TransferQueueConfig}
use transfer_queue.Proto.{Trajectory, TrajectoryGroup}
use transfer_queue.DedupFilter
use transfer_queue.BufferShard.{BufferShard, Core, get, put, on_world}
use transfer_queue.BufferShard.Groups.{
  GroupEntry, GroupMap, is_on_disk, find, store, entry_or_new, new_group, add_trajectory,
}
use transfer_queue.BufferShard.Spill.{spill_waits, try_spill_groups}

-- `get()` of a future, pending or not, outside of a thread, where the server calls `batch_write`: on a
-- pending future it ends the process.
abbrev pub get_now : {A S : Type 0} → Bool → Result A × S → S → Result A × S
get_now true r s = (err not_ready, s)
get_now false r s = r

module _ {W H F : Type 0} (rt : Runtime W H F) where
  -- Step 1: true if the uid is not a duplicate.
  unfoldable pub check_uid : TransferQueueConfig F → Str → Action (Core W F) Bool
  check_uid cfg uid s = elim cfg.uid_dedup [
    | false ↦ (ok true, s)
    | true ↦
        let r = DedupFilter.insert rt.hash s.shard.dedup_filter uid in
        (ok r.1, record s { shard = record s.shard { dedup_filter = r.0 } })
  ]

  -- The entry with a group in memory: the one that is there, or a new one made now.
  unfoldable pub ensure_group :
      TransferQueueConfig F → Str → GroupEntry F → Action (Core W F) (TrajectoryGroup F × ℕ)
  ensure_group cfg instance_id e = elim e.group_ptr [
    | some g ↦ pure (g, e.created_time)
    | none ↦ do now ← on_world rt.now; pure (new_group instance_id cfg.group_size, now)
  ]

module _ {W H F : Type 0} (rt : Runtime W H F) (arrange : GroupMap F → GroupMap F) where
  -- Steps 3 and 4: the trajectory is added and counted.
  unfoldable pub add_to_group :
      Trajectory F → GroupEntry F → TrajectoryGroup F → ℕ → BufferShard F → BufferShard F
  add_to_group t e g created_time shard = record shard {
    groups =
        store arrange t.instance_id
          (record e { group_ptr = some (add_trajectory t g); created_time = created_time })
          shard.groups;
    total_trajectories = suc shard.total_trajectories;
  }

  -- Steps 2 to 5 for an entry that is not on disk.
  unfoldable pub append_in_memory :
      TransferQueueConfig F → Trajectory F → GroupEntry F → Action (Core W F) Bool
  append_in_memory cfg t e = do
    (g, created_time) ← ensure_group rt cfg t.instance_id e
    later ← get
    put (add_to_group t e g created_time later)
    _ ← try_spill_groups rt cfg
    pure true

  -- The test of `is_on_disk()`: a trajectory for a group on disk is dropped, and the call still
  -- returns true.
  unfoldable pub append_unless :
      Bool → TransferQueueConfig F → Trajectory F → GroupEntry F → Action (Core W F) Bool
  append_unless true cfg t e = pure true
  append_unless false cfg t e = append_in_memory cfg t e

  unfoldable pub append : TransferQueueConfig F → Trajectory F → Action (Core W F) Bool
  append cfg t = do
    shard ← get
    let e = entry_or_new (find t.instance_id shard.groups)
    append_unless (is_on_disk e) cfg t e

  -- The early return of a duplicate.
  unfoldable pub append_if : Bool → TransferQueueConfig F → Trajectory F → Action (Core W F) Bool
  append_if false cfg t = pure false
  append_if true cfg t = append cfg t

  unfoldable pub write : TransferQueueConfig F → Trajectory F → Action (Core W F) Bool
  write cfg t = do fresh ← check_uid rt cfg t.uid; append_if fresh cfg t

  -- Steps 1 to 4 alone: whether a trajectory was added, after which `write` comes to the spill.
  abbrev pub place_if :
      Bool → TransferQueueConfig F → Trajectory F → GroupEntry F → Action (Core W F) Bool
  place_if false cfg t e = pure false
  place_if true cfg t e = do
    (g, created_time) ← ensure_group rt cfg t.instance_id e
    later ← get
    put (add_to_group t e g created_time later)
    pure true

  unfoldable pub place : TransferQueueConfig F → Trajectory F → Action (Core W F) Bool
  place cfg t = do
    fresh ← check_uid rt cfg t.uid
    shard ← get
    let e = entry_or_new (find t.instance_id shard.groups)
    place_if (fresh && not (is_on_disk e)) cfg t e

  abbrev pub placed_waits : TransferQueueConfig F → Result Bool × Core W F → Bool
  placed_waits cfg (ok added, s) = added && spill_waits rt cfg s.shard
  placed_waits cfg (err e, s) = false

  -- Whether the future of `write` is pending when it is returned.
  unfoldable pub write_waits : TransferQueueConfig F → Trajectory F → Core W F → Bool
  write_waits cfg t s = placed_waits cfg (place cfg t s)

  -- The loop of `batch_write`, with the number written so far.
  unfoldable pub write_from : TransferQueueConfig F → ℕ → List (Trajectory F) → Action (Core W F) ℕ
  write_from cfg written [] s = (ok written, s)
  write_from cfg written (t ∷ ts) s =
      continue (get_now (write_waits cfg t s) (write cfg t s) s)
        (λ done. write_from cfg (if done then suc written else written) ts)

  unfoldable pub batch_write : TransferQueueConfig F → List (Trajectory F) → Action (Core W F) ℕ
  batch_write cfg ts = write_from cfg 0 ts
