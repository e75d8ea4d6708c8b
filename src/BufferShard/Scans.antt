-- ===== src/BufferShard/Scans.antt =====
-- `read_ready_groups` of server/buffer_shard.cc with any limit, on a machine where no operation fails.
use transfer_queue.Prelude.{◌+◌, ◌≤◌, ◌≡◌, refl, ◌∙◌, true, List, ◌++◌, arith, Str}
use transfer_queue.Prelude.Int.{ℤ}
use transfer_queue.Action.{Result, ok}
use transfer_queue.Platform.Runtime.{Runtime, View, IsCodec, IsReliable}
use transfer_queue.Proto.{TrajectoryGroup}
use transfer_queue.DiskStorage.{load_batch}
use transfer_queue.DiskStorage.Batch.{bound}
use transfer_queue.DiskStorage.Loads.{
  AllLoadable, Distinct, Misses, AllLoadable-Quiet, AllLoadable-Exists, load_batch_lem,
  remove_batch_lem,
}
use transfer_queue.BufferShard.{Core}
use transfer_queue.BufferShard.Groups.{GroupMap}
use transfer_queue.BufferShard.Entries.{Keyed}
use transfer_queue.BufferShard.Manage.{disk_offsets}
use transfer_queue.BufferShard.Consume.{ready_of, emptied, waiting, erase_all-first}
use transfer_queue.BufferShard.Drain.{count_trajectories-append}
use transfer_queue.BufferShard.Prefix.{gathered}
use transfer_queue.BufferShard.Overlap.{start_of}
use transfer_queue.BufferShard.Read.{
  scan_groups, count_trajectories, scan_phase, finish_read, read_ready_groups,
}

module _ {W H F : Type 0} (rt : Runtime W H F) (v : View W H) (codec : IsCodec rt)
    (reliable : IsReliable rt v) where
  -- A read that took the complete groups of the first part of the map.
  pub record TookFrom (core : Core W F) (first rest : GroupMap F) (gs : List (TrajectoryGroup F))
      (r : Result (List (TrajectoryGroup F)) × Core W F) : Type 0 where
    pub returned : r.0 ≡ ok (ready_of first ++ gs)
    pub groups : r.1.shard.groups ≡ waiting first ++ rest
    pub storage : r.1.shard.disk_storage ≡ core.shard.disk_storage
    pub filter : r.1.shard.dedup_filter ≡ core.shard.dedup_filter
    pub total : r.1.shard.total_trajectories ≡ core.shard.total_trajectories
    pub consumed :
        r.1.shard.total_consumed
        ≡ core.shard.total_consumed + count_trajectories (ready_of first ++ gs)
    pub same :
        (q : Str)
        → Misses rt v core.shard.disk_storage q (disk_offsets first)
        → v.contents r.1.env.world q ≡ v.contents core.env.world q
    pub grows :
        bound rt v core.shard.disk_storage core.env ≤ bound rt v core.shard.disk_storage r.1.env

  pub read_first :
      (n : ℤ) (core : Core W F) (first rest : GroupMap F) (gs : List (TrajectoryGroup F))
      → core.shard.disk_storage.initialized ≡ true
      → Keyed first
      → Distinct rt v core.shard.disk_storage (disk_offsets first)
      → AllLoadable rt v core.shard.disk_storage core.env.world (disk_offsets first) gs
      → scan_groups n core.shard.groups (start_of rt core)
        ≡ ok (emptied first ++ rest, gathered first (start_of rt core))
      → TookFrom core first rest gs (read_ready_groups rt n core)
  unfolding read_ready_groups scan_phase finish_read
  read_first n core first rest gs on keyed distinct loadable scanned =
      let d = core.shard.disk_storage in
      let ids = disk_offsets first in
      let w = core.env.world in
      let (loads, quiet) = load_batch_lem rt v d codec reliable on ids gs w loadable in
      let w₁ = (load_batch rt d ids w).1 in
      let still = AllLoadable-Quiet rt v d ids gs quiet loadable in
      let removed =
        remove_batch_lem rt v d codec reliable on ids w₁ distinct
          (AllLoadable-Exists rt v d codec reliable on ids gs w₁ still) in
      rw (scanned, loads, removed.returned)
        (record {
          returned = refl;
          groups = erase_all-first first rest keyed;
          storage = refl;
          filter = refl;
          total = refl;
          consumed = omega (arith, count_trajectories-append (ready_of first) gs);
          same = λ q m. removed.same q m ∙ quiet.same q;
          grows = omega (arith, removed.later, quiet.later);
        })
