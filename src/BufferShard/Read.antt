-- ===== src/BufferShard/Read.antt =====
-- `read_ready_groups` and `has_ready_groups` of server/buffer_shard.cc.
use transfer_queue.Prelude.{
  ℕ, ◌+◌, Bool, true, false, ◌&&◌, List, [], ◌∷◌, ◌++◌, none, some, Str, length, ltb, leb,
  if◌then◌else◌,
}
use transfer_queue.Prelude.Int.{ℤ, pos, negsuc, ◌-ℤ◌, to_int32}
use transfer_queue.Platform.Runtime.{Runtime}
use transfer_queue.Action.{Action, Result, ok, err, null_dereference, pure, ◌>>=◌, ◌>>◌, for_each}
use transfer_queue.Proto.{TrajectoryGroup}
use transfer_queue.DiskStorage
use transfer_queue.BufferShard.{BufferShard, Core, get, put, on_world}
use transfer_queue.BufferShard.Groups.{GroupEntry, GroupMap, is_on_disk, is_complete, erase}

-- What the loop of `read_ready_groups` collects.
pub record Scan (F : Type 0) : Type 0 where
  pub result : List (TrajectoryGroup F)
  pub offsets_to_load : List ℕ
  pub ids_to_remove : List Str
  pub consumed : ℕ
  pub disk_usage : ℤ

-- `max_groups > 0 && static_cast<int32_t>(n) >= max_groups`.
abbrev pub reached : ℤ → ℕ → Bool
reached (negsuc m) n = false
reached (pos m) n = ltb 0 m && elim (to_int32 n) [ pos k ↦ leb m k | negsuc _ ↦ false ]

module _ {F : Type 0} where
  -- One ready entry of the loop: what is left of it, and what is collected. A complete entry that
  -- is neither on disk nor in memory makes the code dereference a null pointer.
  unfoldable pub take_entry : Str → GroupEntry F → Scan F → Result (GroupEntry F × Scan F)
  take_entry id e c =
      let ids = c.ids_to_remove ++ id ∷ [] in
      if is_on_disk e
      then ok (
        e,
        record c {
          ids_to_remove = ids;
          offsets_to_load = c.offsets_to_load ++ e.disk_offset ∷ [];
          disk_usage = c.disk_usage -ℤ pos e.cached_bytes;
        },
      )
      else elim e.group_ptr [
        | none ↦ err null_dereference
        | some g ↦ ok (
          record e { group_ptr = none },
          record c {
            ids_to_remove = ids;
            consumed = c.consumed + length g.trajectories;
            result = c.result ++ g ∷ [];
          },
        )
      ]

  abbrev pub after_scan :
      Str × GroupEntry F → Result (GroupMap F × Scan F) → Result (GroupMap F × Scan F)
  after_scan e (ok (l, c)) = ok (e ∷ l, c)
  after_scan e (err x) = err x

  -- The loop over `groups_`, with the entries as it leaves them.
  unfoldable pub scan_groups : ℤ → GroupMap F → Scan F → Result (GroupMap F × Scan F)
  scan_groups max_groups [] c = ok ([], c)
  scan_groups max_groups ((id, e) ∷ l) c = elim (is_complete e) [
    | false ↦ after_scan (id, e) (scan_groups max_groups l c)
    | true ↦ elim (reached max_groups (length c.result + length c.offsets_to_load)) [
      | true ↦ ok ((id, e) ∷ l, c)
      | false ↦ elim (take_entry id e c) [
        | err x ↦ err x
        | ok (e', c') ↦ after_scan (id, e') (scan_groups max_groups l c')
      ]
    ]
  ]

  unfoldable pub erase_all : List Str → GroupMap F → GroupMap F
  erase_all [] l = l
  erase_all (id ∷ ids) l = erase_all ids (erase id l)

module _ {W F : Type 0} where
  abbrev pub from_result : {A : Type 0} → Result A → Action (Core W F) A
  from_result r s = (r, s)

-- The loop that adds the loaded groups to the result; a loaded group is never null.
unfoldable pub count_trajectories : {F : Type 0} → List (TrajectoryGroup F) → ℕ
count_trajectories [] = 0
count_trajectories (g ∷ gs) = length g.trajectories + count_trajectories gs

module _ {W H F : Type 0} (rt : Runtime W H F) where
  -- The scan, with the members that it changes before the first wait.
  unfoldable pub scan_phase : ℤ → Action (Core W F) (Scan F)
  scan_phase max_groups = do
    shard ← get
    (groups, c) ← from_result (
        scan_groups max_groups shard.groups (record {
          result = [];
          offsets_to_load = [];
          ids_to_remove = [];
          consumed = shard.total_consumed;
          disk_usage = shard.disk_usage_bytes;
        }))
    put (record shard {
      groups = groups;
      total_consumed = c.consumed;
      disk_usage_bytes = c.disk_usage;
    })
    pure c

  -- The continuations: load, count, delete the files, drop the entries.
  unfoldable pub finish_read : Scan F → Action (Core W F) (List (TrajectoryGroup F))
  finish_read c = do
    shard ← get
    loaded ← on_world (DiskStorage.load_batch rt shard.disk_storage c.offsets_to_load)
    s₁ ← get
    put (record s₁ { total_consumed = s₁.total_consumed + count_trajectories loaded })
    _ ← on_world (for_each (DiskStorage.remove rt s₁.disk_storage) c.offsets_to_load)
    s₂ ← get
    put (record s₂ { groups = erase_all c.ids_to_remove s₂.groups })
    pure (c.result ++ loaded)

  unfoldable pub read_ready_groups : ℤ → Action (Core W F) (List (TrajectoryGroup F))
  read_ready_groups max_groups = do c ← scan_phase max_groups; finish_read c

unfoldable pub any_complete : {F : Type 0} → GroupMap F → Bool
any_complete [] = false
any_complete ((id, e) ∷ l) = if is_complete e then true else any_complete l

unfoldable pub has_ready_groups : {F : Type 0} → BufferShard F → Bool
has_ready_groups shard = any_complete shard.groups
