-- ===== src/BufferShard/Drain.antt =====
-- `read_ready_groups` of server/buffer_shard.cc when some of the groups are on disk.
use transfer_queue.Prelude.{
  ◌+◌, ◌≡◌, refl, true, inl, inr, ◌⊎◌, List, [], ◌∷◌, ◌++◌, none, some, length, All, if◌then◌else◌,
  arith,
}
use mathlib.Core.List.{append-nil, append_assoc}
use transfer_queue.Prelude.Int.{ℤ, pos, ◌-ℤ◌}
use transfer_queue.Action.{Result, ok}
use transfer_queue.Platform.Runtime.{Runtime, View, IsCodec, IsReliable}
use transfer_queue.Proto.{TrajectoryGroup}
use transfer_queue.DiskStorage.{load_batch, file_name}
use transfer_queue.DiskStorage.Loads.{
  AllLoadable, Distinct, AllLoadable-Quiet, AllLoadable-Exists, load_batch_lem, remove_batch_lem,
}
use transfer_queue.BufferShard.{Core}
use transfer_queue.BufferShard.Groups.{GroupEntry, GroupMap, is_complete, is_on_disk}
use transfer_queue.BufferShard.Entries.{Keyed}
use transfer_queue.BufferShard.Manage.{disk_offsets}
use transfer_queue.BufferShard.Consume.{ready_of, ready_ids, emptied, waiting, erase_all-emptied}
use transfer_queue.BufferShard.Read.{
  Scan, take_entry, scan_groups, count_trajectories, scan_phase, finish_read, read_ready_groups,
}

module _ {F : Type 0} where
  -- The estimate of the bytes on disk once the entries on disk are taken out.
  unfoldable pub usage_after : GroupMap F → ℤ → ℤ
  usage_after [] u = u
  usage_after ((id, e) ∷ l) u = usage_after l (if is_on_disk e then u -ℤ pos e.cached_bytes else u)

  -- An entry has its group in memory, or a positive offset.
  abbrev pub IsPlaced : GroupEntry F → Type 0
  IsPlaced e =
      ((g : TrajectoryGroup F) × (e.group_ptr ≡ some g))
      ⊎ ((e.group_ptr ≡ none) × (is_on_disk e ≡ true))

  pub scan-IsPlaced :
      (l : GroupMap F) (c : Scan F)
      → All (λ x. IsPlaced x.1) l
      → scan_groups (pos 0) l c
        ≡ ok (
          emptied l,
          record c {
            result = c.result ++ ready_of l;
            offsets_to_load = c.offsets_to_load ++ disk_offsets l;
            ids_to_remove = c.ids_to_remove ++ ready_ids l;
            consumed = c.consumed + count_trajectories (ready_of l);
            disk_usage = usage_after l c.disk_usage;
          },
        )
  unfolding scan_groups take_entry emptied ready_of ready_ids count_trajectories is_complete
      is_on_disk disk_offsets usage_after
  scan-IsPlaced [] c m =
      ground (arith, append-nil c.result, append-nil c.ids_to_remove, append-nil c.offsets_to_load)
  scan-IsPlaced ((id, e) ∷ l) c (inl (g, h), m) = ground (
    arith,
    h,
    scan-IsPlaced l c m,
    scan-IsPlaced l
        (record c {
          ids_to_remove = c.ids_to_remove ++ id ∷ [];
          consumed = c.consumed + length g.trajectories;
          result = c.result ++ g ∷ [];
        })
        m,
    append_assoc c.result (g ∷ []) (ready_of l),
    append_assoc c.ids_to_remove (id ∷ []) (ready_ids l),
  )
  scan-IsPlaced ((id, e) ∷ l) c (inr (h, d), m) = ground (
    arith,
    h,
    d,
    scan-IsPlaced l
        (record c {
          ids_to_remove = c.ids_to_remove ++ id ∷ [];
          offsets_to_load = c.offsets_to_load ++ e.disk_offset ∷ [];
          disk_usage = c.disk_usage -ℤ pos e.cached_bytes;
        })
        m,
    append_assoc c.offsets_to_load (e.disk_offset ∷ []) (disk_offsets l),
    append_assoc c.ids_to_remove (id ∷ []) (ready_ids l),
  )

  pub count_trajectories-append :
      (l m : List (TrajectoryGroup F))
      → count_trajectories (l ++ m) ≡ count_trajectories l + count_trajectories m
  unfolding count_trajectories
  count_trajectories-append [] m = omega arith
  count_trajectories-append (g ∷ l) m = omega (arith, count_trajectories-append l m)

module _ {W H F : Type 0} (rt : Runtime W H F) (v : View W H) (codec : IsCodec rt)
    (reliable : IsReliable rt v) where
  -- A shard whose groups are all there, those on disk in files of their own: `gs` are these.
  pub record IsSound (core : Core W F) (gs : List (TrajectoryGroup F)) : Type 0 where
    pub initialized : core.shard.disk_storage.initialized ≡ true
    pub keyed : Keyed core.shard.groups
    pub placed : All (λ x. IsPlaced x.1) core.shard.groups
    pub distinct : Distinct rt v core.shard.disk_storage (disk_offsets core.shard.groups)
    pub loadable :
        AllLoadable rt v core.shard.disk_storage core.env.world (disk_offsets core.shard.groups) gs

  -- What a read without a limit leaves.
  pub record Drained (core : Core W F) (gs : List (TrajectoryGroup F))
      (r : Result (List (TrajectoryGroup F)) × Core W F) : Type 0 where
    pub returned : r.0 ≡ ok (ready_of core.shard.groups ++ gs)
    pub groups : r.1.shard.groups ≡ waiting core.shard.groups
    pub consumed :
        r.1.shard.total_consumed
        ≡ core.shard.total_consumed + count_trajectories (ready_of core.shard.groups ++ gs)
    pub gone :
        All
          (λ id. v.contents r.1.env.world (file_name rt core.shard.disk_storage id) ≡ none)
          (disk_offsets core.shard.groups)

  -- On a machine where no file operation fails, `read_ready_groups` without a limit returns every
  -- complete group, those in memory first, leaves exactly the entries that are not complete, counts
  -- the trajectories that it returns, and removes the files of the groups that were on disk.
  pub read_ready_groups-Drained :
      (core : Core W F) (gs : List (TrajectoryGroup F))
      → IsSound core gs
      → Drained core gs (read_ready_groups rt (pos 0) core)
  unfolding read_ready_groups scan_phase finish_read
  read_ready_groups-Drained core gs s =
      let d = core.shard.disk_storage in
      let ids = disk_offsets core.shard.groups in
      let w = core.env.world in
      let (loads, quiet) = load_batch_lem rt v d codec reliable s.initialized ids gs w s.loadable in
      let w₁ = (load_batch rt d ids w).1 in
      let still = AllLoadable-Quiet rt v d ids gs quiet s.loadable in
      let removed =
        remove_batch_lem rt v d codec reliable s.initialized ids w₁ s.distinct
          (AllLoadable-Exists rt v d codec reliable s.initialized ids gs w₁ still) in
      rw (scan-IsPlaced core.shard.groups _ s.placed, loads, removed.returned)
        (record {
          returned = refl;
          groups = erase_all-emptied core.shard.groups s.keyed;
          consumed = omega (arith, count_trajectories-append (ready_of core.shard.groups) gs);
          gone = removed.gone;
        })
