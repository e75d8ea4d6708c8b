-- ===== src/BufferShard/KeptKeys.antt =====
-- The keys of the map of groups under the operations of server/buffer_shard.cc other than `write`:
-- none adds a key.
use transfer_queue.Prelude.{
  ℕ, ◌≡◌, ◌+◌, ◌⊎◌, subst, suc, refl, if◌then◌else◌, Bool-cases, inl, inr, All, List, [], ◌∷◌, none,
  some, Option, Str, length, arith, true, false, Bool,
}
use transfer_queue.Prelude.Int.{ℤ}
use transfer_queue.Action.{Result, ok, err, Error, for_each}
use transfer_queue.Config.{TransferQueueConfig}
use transfer_queue.Platform.Runtime.{Runtime}
use transfer_queue.Proto.{Trajectory}
use transfer_queue.DiskStorage
use transfer_queue.BufferShard.{Core, on_world}
use transfer_queue.BufferShard.Groups.{GroupEntry, GroupMap, find, erase, is_complete, is_on_disk}
use transfer_queue.BufferShard.Entries.{Keyed, IsReordering, find-erase, erase-Keyed}
use transfer_queue.BufferShard.Keys.{Owns, Keeps, continue_lem, write-Owns}
use transfer_queue.BufferShard.Manage.{
  delete_instance, delete_found, drop_entry, reset, disk_offsets, cleared_shard,
}
use transfer_queue.BufferShard.Read.{
  Scan, reached, take_entry, after_scan, scan_groups, scan_phase, finish_read, erase_all,
  read_ready_groups,
}
use transfer_queue.BufferShard.Write.{get_now, write_waits, write_from, batch_write, write}

pub Result-cases :
    {A : Type 0} (r : Result A) → ((a : A) × (r ≡ ok a)) ⊎ ((x : Error) × (r ≡ err x))
Result-cases (ok a) = inl (a, refl)
Result-cases (err x) = inr (x, refl)

get_now_lem :
    {A S : Type 0} (P : S → Type 0) (waits : Bool) (r : Result A × S) (s : S)
    → P r.1
    → P s
    → P (get_now waits r s).1
get_now_lem P true r s p q = q
get_now_lem P false r s p q = p

module _ {F : Type 0} where
  -- The same keys in the same order.
  abbrev Similar : GroupMap F → GroupMap F → Type 0
  Similar [] [] = Unit {0}
  Similar ((k, e) ∷ l) ((j, x) ∷ m) = (k ≡ j) × Similar l m
  Similar _ _ = ⊥

  Similar-refl : (l : GroupMap F) → Similar l l
  Similar-refl [] = tt
  Similar-refl ((k, e) ∷ l) = (refl, Similar-refl l)

  find-Similar : (q : Str) (l m : GroupMap F) → Similar l m → find q l ≡ none → find q m ≡ none
  unfolding find
  find-Similar q [] [] s h = h
  find-Similar q [] (y ∷ m) s h = absurd s
  find-Similar q (x ∷ l) [] s h = absurd s
  find-Similar q ((k, e) ∷ l) ((j, x) ∷ m) s h = ground (arith, s.0, find-Similar q l m s.1, h)

  Keyed-Similar : (l m : GroupMap F) → Similar l m → Keyed l → Keyed m
  Keyed-Similar [] [] s h = h
  Keyed-Similar [] (y ∷ m) s h = absurd s
  Keyed-Similar (x ∷ l) [] s h = absurd s
  Keyed-Similar ((k, e) ∷ l) ((j, x) ∷ m) s h =
      (subst (λ q. find q m ≡ none) s.0 (find-Similar k l m s.1 h.0), Keyed-Similar l m s.1 h.1)

  -- What a scan leaves has the keys that were there.
  abbrev Scanned : GroupMap F → Result (GroupMap F × Scan F) → Type 0
  Scanned l (ok (m, c)) = Similar l m
  Scanned l (err e) = Unit {0}

  after_scan-Scanned :
      (id : Str) (e x : GroupEntry F) (l : GroupMap F) (r : Result (GroupMap F × Scan F))
      → Scanned l r
      → Scanned ((id, e) ∷ l) (after_scan (id, x) r)
  after_scan-Scanned id e x l (ok (m, c)) s = (refl, s)
  after_scan-Scanned id e x l (err z) s = tt

  scan-Scanned : (n : ℤ) (l : GroupMap F) (c : Scan F) → Scanned l (scan_groups n l c)
  unfolding scan_groups
  scan-Scanned n [] c = tt
  scan-Scanned n ((id, e) ∷ l) c = elim (Bool-cases (is_complete e)) [
    | inr more ↦ rw (more, scan_groups) (after_scan-Scanned id e e l _ (scan-Scanned n l c))
    | inl done ↦ elim (Bool-cases (reached n (length c.result + length c.offsets_to_load))) [
      | inl full ↦ rw (done, scan_groups, full) (refl, Similar-refl l)
      | inr room ↦ elim (Result-cases (take_entry id e c)) [
        | inl (r, taken) ↦
            rw (done, scan_groups, room, taken)
              (after_scan-Scanned id e r.0 l _ (scan-Scanned n l r.1))
        | inr (x, failed) ↦ rw (done, scan_groups, room, failed) tt
      ]
    ]
  ]

module _ {W H F : Type 0} (rt : Runtime W H F) (Foreign : Str → Type 0) where
  Similar-Owns : (l m : GroupMap F) → Similar l m → Owns rt Foreign l → Owns rt Foreign m
  Similar-Owns l m s (keyed, absent) =
      (Keyed-Similar l m s keyed, λ q h. find-Similar q l m s (absent q h))

  erase-Owns : (id : Str) (l : GroupMap F) → Owns rt Foreign l → Owns rt Foreign (erase id l)
  erase-Owns id l (keyed, absent) =
      (erase-Keyed id l keyed, λ q h. ground (arith, find-erase id q l keyed, absent q h))

  erase_all-Owns :
      (ids : List Str) (l : GroupMap F) → Owns rt Foreign l → Owns rt Foreign (erase_all ids l)
  unfolding erase_all
  erase_all-Owns [] l o = o
  erase_all-Owns (id ∷ ids) l o = erase_all-Owns ids (erase id l) (erase-Owns id l o)

  delete_found-Owns :
      (id : Str) (e : Option (GroupEntry F)) (core : Core W F)
      → Keeps rt Foreign core
      → Keeps rt Foreign (delete_found rt id core.shard e core).1
  unfolding delete_found drop_entry
  delete_found-Owns id none core o = o
  delete_found-Owns id (some e) core o = elim (Bool-cases (is_on_disk e)) [
    | inl disk ↦ rw (disk) (erase-Owns id core.shard.groups o)
    | inr memory ↦ rw (memory) (erase-Owns id core.shard.groups o)
  ]

  pub delete_instance-Owns :
      (id : Str) (core : Core W F)
      → Keeps rt Foreign core
      → Keeps rt Foreign (delete_instance rt id core).1
  unfolding delete_instance
  delete_instance-Owns id core o = delete_found-Owns id (find id core.shard.groups) core o

  pub reset-Owns : (core : Core W F) → Keeps rt Foreign (reset rt core).1
  unfolding reset find
  reset-Owns core =
      continue_lem (Keeps rt Foreign)
        (on_world
          (for_each (DiskStorage.remove rt core.shard.disk_storage)
            (disk_offsets core.shard.groups))
          (record core { shard = cleared_shard rt core.shard }))
        _ (tt, λ q h. refl) (λ u s p. p)

  finish_read-Owns :
      (c : Scan F) (core : Core W F)
      → Keeps rt Foreign core
      → Keeps rt Foreign (finish_read rt c core).1
  unfolding finish_read
  finish_read-Owns c core o =
      continue_lem (Keeps rt Foreign)
        (on_world (DiskStorage.load_batch rt core.shard.disk_storage c.offsets_to_load) core) _ o
        (λ loaded s p.
          continue_lem (Keeps rt Foreign)
            (on_world (for_each (DiskStorage.remove rt s.shard.disk_storage) c.offsets_to_load) _) _
            p (λ u s' p'. erase_all-Owns c.ids_to_remove s'.shard.groups p'))

  scan_phase-Owns :
      (n : ℤ) (core : Core W F) → Keeps rt Foreign core → Keeps rt Foreign (scan_phase rt n core).1
  unfolding scan_phase
  scan_phase-Owns n core o =
      let l = core.shard.groups in
      let start : Scan F = record {
        result = [];
        offsets_to_load = [];
        ids_to_remove = [];
        consumed = core.shard.total_consumed;
        disk_usage = core.shard.disk_usage_bytes;
      } in
      elim (Result-cases (scan_groups n l start)) [
        | inl (r, e) ↦ rw (e) (Similar-Owns l r.0 (subst (Scanned l) e (scan-Scanned n l start)) o)
        | inr (x, e) ↦ rw (e) o
      ]

  pub read_ready_groups-Owns :
      (n : ℤ) (core : Core W F)
      → Keeps rt Foreign core
      → Keeps rt Foreign (read_ready_groups rt n core).1
  unfolding read_ready_groups
  read_ready_groups-Owns n core o =
      continue_lem (Keeps rt Foreign) (scan_phase rt n core) _ (scan_phase-Owns n core o)
        (λ c s p. finish_read-Owns c s p)

  module _ (arrange : GroupMap F → GroupMap F) (reorders : IsReordering arrange) where
    write_from-Owns :
        (cfg : TransferQueueConfig F) (n : ℕ) (ts : List (Trajectory F)) (core : Core W F)
        → All (λ t. ¬ (Foreign t.instance_id)) ts
        → Keeps rt Foreign core
        → Keeps rt Foreign (write_from rt arrange cfg n ts core).1
    unfolding write_from
    write_from-Owns cfg n [] core mine o = o
    write_from-Owns cfg n (t ∷ ts) core mine o =
        continue_lem (Keeps rt Foreign)
          (get_now (write_waits rt arrange cfg t core) (write rt arrange cfg t core) core) _
          (get_now_lem (Keeps rt Foreign) (write_waits rt arrange cfg t core)
            (write rt arrange cfg t core) core
            (write-Owns rt Foreign arrange reorders cfg t core mine.0 o) o)
          (λ done s p. write_from-Owns cfg (if done then suc n else n) ts s mine.1 p)

    pub batch_write-Owns :
        (cfg : TransferQueueConfig F) (ts : List (Trajectory F)) (core : Core W F)
        → All (λ t. ¬ (Foreign t.instance_id)) ts
        → Keeps rt Foreign core
        → Keeps rt Foreign (batch_write rt arrange cfg ts core).1
    unfolding batch_write
    batch_write-Owns cfg ts core mine o = write_from-Owns cfg 0 ts core mine o
