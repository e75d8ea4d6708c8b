-- ===== src/BufferShard/Status.antt =====
-- What `get_status`, `get_meta_info`, `has_ready_groups` and `check_group_timeouts` of
-- server/buffer_shard.cc say of the same groups.
use transfer_queue.Prelude.{
  ℕ, ◌+◌, ◌≡◌, refl, ◌||◌, [], ◌∷◌, some, Str, length, ltb, leb, arith, ◌%◌, ◌^◌, ◌<◌, suc,
}
use transfer_queue.BufferShard.Groups.{GroupEntry, GroupMap, is_complete, trajectories_size, find}
use transfer_queue.BufferShard.Read.{any_complete}
use transfer_queue.BufferShard.Manage.{count_groups, finished_ids, expire_entry, expire}

module _ {F : Type 0} where
  -- With fewer than 2^32 groups, every group is counted once, as pending or as incomplete; there is a
  -- ready group exactly if some group is pending; and the finished ids are as many as the pending
  -- groups.
  pub counts_agree :
      (l : GroupMap F)
      → length l < 2 ^ 32
      → ((count_groups l).0 + (count_groups l).1 ≡ length l)
        × (any_complete l ≡ ltb 0 (count_groups l).0)
        × (length (finished_ids l) ≡ (count_groups l).0)
  unfolding count_groups any_complete finished_ids
  counts_agree [] few = (refl, refl, refl)
  counts_agree ((id, e) ∷ l) few =
      let (all, ready, finished) = counts_agree l (omega (arith, few)) in
      let pending : suc (count_groups l).0 % 2 ^ 32 ≡ suc (count_groups l).0 =
        omega (arith, all, few) in
      let incomplete : suc (count_groups l).1 % 2 ^ 32 ≡ suc (count_groups l).1 =
        omega (arith, all, few) in
      ground (arith, all, ready, finished, pending, incomplete)

  find-expire_entry :
      (now timeout : ℕ) (q : Str) (l : GroupMap F) (e : GroupEntry F)
      → find q l ≡ some e
      → find q (expire now timeout l) ≡ some (expire_entry now timeout e)
  unfolding find expire
  find-expire_entry now timeout q [] e h = absurd (ground arith)
  find-expire_entry now timeout q ((k, x) ∷ l) e h =
      ground (arith, find-expire_entry now timeout q l e)

  expire_entry_lem :
      (now timeout : ℕ) (e : GroupEntry F)
      → (is_complete (expire_entry now timeout e)
          ≡ (is_complete e || leb (e.created_time + timeout) now))
        × (trajectories_size (expire_entry now timeout e) ≡ trajectories_size e)
        × ((expire_entry now timeout e).created_time ≡ e.created_time)
        × ((expire_entry now timeout e).disk_offset ≡ e.disk_offset)
  unfolding expire_entry is_complete trajectories_size
  expire_entry_lem now timeout e = ground arith

  -- After `check_group_timeouts` a group is complete exactly if it was or its age has reached the
  -- timeout; its trajectories, its age and the other keys are as they were.
  pub find-expire :
      (now timeout : ℕ) (q : Str) (l : GroupMap F) (e : GroupEntry F)
      → find q l ≡ some e
      → (e' : GroupEntry F) × (find q (expire now timeout l) ≡ some e')
        × ((is_complete e' ≡ (is_complete e || leb (e.created_time + timeout) now))
            × (trajectories_size e' ≡ trajectories_size e)
            × (e'.created_time ≡ e.created_time)
            × (e'.disk_offset ≡ e.disk_offset))
  find-expire now timeout q l e h = (
    expire_entry now timeout e,
    find-expire_entry now timeout q l e h,
    expire_entry_lem now timeout e,
  )
