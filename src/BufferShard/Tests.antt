-- ===== src/BufferShard/Tests.antt =====
-- The shard of server/buffer_shard.cc on a machine in memory.
use transfer_queue.Prelude.{
  ℕ, List, map, ◌+◌, ◌≡◌, ◌||◌, refl, true, inl, some, leb, arith, ◌∷◌, [],
}
use transfer_queue.Prelude.Int.{pos}
use transfer_queue.Action.{ok, err, not_ready}
use transfer_queue.Platform.Sample.{machine, seen, machine-IsCodec, machine-IsReliable}
use transfer_queue.Platform.Codec.{serialize}
use transfer_queue.DiskStorage.{spill_batch}
use transfer_queue.BufferShard.Interleaved.{Later, spill_batch-Later}
use transfer_queue.BufferShard.Groups.{
  GroupEntry, is_complete, is_on_disk, trajectories_size, find, store, new_group, add_trajectory,
}
use transfer_queue.BufferShard.Transparent.{Invisible, try_spill_groups-Invisible}
use transfer_queue.BufferShard.Appends.{Appended}
use transfer_queue.BufferShard.Accepts.{checked, write_dropped, write_accepted}
use transfer_queue.BufferShard.Status.{find-expire}
use transfer_queue.BufferShard.Deletes.{Emptied, reset-Emptied}
use transfer_queue.BufferShard.Spill.{
  select_groups, spill_waits, choose_groups, sum_bytes, try_spill_groups,
}
use transfer_queue.Config.{default_config}
use transfer_queue.BufferShard.{estimate_memory_usage, groups_memory}
use transfer_queue.BufferShard.Write.{
  batch_write, write_from, write_waits, place, ensure_group, check_uid, write, add_to_group,
}
use transfer_queue.BufferShard.Manage.{reset, expire}
use transfer_queue.BufferShard.Sample.{
  disk, booted, id_j, trajectory, cfg, filter-IsValid, entry_j, two_groups, arrange,
  arrange-IsReordering, one_group, view_of_one, one_group-Represents, one_group-IsSerializable,
  empty_view, no_groups, no_groups-Represents, written-IsSerializable, no_groups-here, spilled,
  spilled-here, found_j, mixed, mixed-AllSettled,
}
use transfer_queue.BufferShard.Overlap.{Overlapping, scan_phase-Overlapping}
use transfer_queue.BufferShard.Read.{scan_phase}

try_spill_groups-Invisible_example :
    ((try_spill_groups machine cfg one_group).0
      ≡ ok (sum_bytes machine (choose_groups machine cfg one_group.shard)))
    × Invisible machine seen view_of_one one_group (try_spill_groups machine cfg one_group).1
try_spill_groups-Invisible_example =
    try_spill_groups-Invisible machine seen view_of_one machine-IsCodec machine-IsReliable cfg
      one_group refl one_group-Represents one_group-IsSerializable (omega arith)

write_accepted_example :
    Appended machine seen cfg trajectory empty_view
      (checked machine cfg trajectory.uid no_groups.shard.dedup_filter)
      no_groups
      (write machine arrange cfg trajectory no_groups)
write_accepted_example =
    write_accepted machine arrange seen arrange-IsReordering machine-IsCodec machine-IsReliable cfg
      trajectory empty_view no_groups filter-IsValid (inl refl) refl no_groups-Represents
      no_groups-here written-IsSerializable (omega arith)

write_dropped_example : write machine arrange cfg trajectory spilled ≡ (
  ok true,
  record spilled {
    shard = record spilled.shard {
      dedup_filter = checked machine cfg trajectory.uid spilled.shard.dedup_filter;
    };
  },
)
write_dropped_example =
    write_dropped machine arrange cfg trajectory spilled filter-IsValid (inl refl) spilled-here

find-expire_example :
    (e' : GroupEntry ℕ) × (find id_j (expire 20 10 two_groups) ≡ some e')
    × ((is_complete e' ≡ (is_complete entry_j || leb (entry_j.created_time + 10) 20))
        × (trajectories_size e' ≡ trajectories_size entry_j)
        × (e'.created_time ≡ entry_j.created_time)
        × (e'.disk_offset ≡ entry_j.disk_offset))
find-expire_example = find-expire 20 10 id_j two_groups entry_j found_j

reset-Emptied_example : Emptied machine seen spilled (reset machine spilled).1
reset-Emptied_example = reset-Emptied machine seen spilled filter-IsValid

spill_batch-Later_example :
    let chosen = choose_groups machine cfg one_group.shard in
    let r = spill_batch machine disk (map (λ c. c.1) chosen) booted in
    (ids : List ℕ) × (r.0 ≡ ok ids)
    × Later machine seen machine-IsCodec machine-IsReliable arrange arrange-IsReordering chosen
        one_group r.1 ids
spill_batch-Later_example =
    spill_batch-Later machine seen machine-IsCodec machine-IsReliable arrange arrange-IsReordering
      cfg one_group view_of_one refl one_group-Represents one_group-IsSerializable (omega arith)

scan_phase-Overlapping_example : Overlapping machine mixed (scan_phase machine (pos 0) mixed)
scan_phase-Overlapping_example = scan_phase-Overlapping machine mixed mixed-AllSettled

-- A batch write that starts a spill calls `get()` on a pending future; one that does not returns.
batch_write_aborts : (batch_write machine arrange cfg (trajectory ∷ []) no_groups).0 ≡ err not_ready
unfolding batch_write write_from write_waits place spill_waits choose_groups select_groups find
    ensure_group add_to_group store new_group add_trajectory is_on_disk is_complete
    estimate_memory_usage groups_memory check_uid default_config serialize
batch_write_aborts = refl
