-- ===== src/BufferShard/Consume.antt =====
-- What `read_ready_groups` of server/buffer_shard.cc returns and leaves.
use transfer_queue.Prelude.{
  ◌+◌, ◌≡◌, refl, ap, sym, ◌∙◌, Bool-cases, inl, inr, List, [], ◌∷◌, ◌++◌, Option, none, some, Str,
  Str-discrete, length, if◌then◌else◌, if_pos, if_neg, arith,
}
use mathlib.Core.List.{append-nil, append_assoc}
use transfer_queue.Prelude.Int.{pos}
use transfer_queue.Action.{ok, for_each}
use transfer_queue.Platform.Runtime.{Runtime}
use transfer_queue.Proto.{TrajectoryGroup}
use transfer_queue.DiskStorage
use transfer_queue.DiskStorage.{lift}
use transfer_queue.BufferShard.{Core}
use transfer_queue.BufferShard.Groups.{GroupEntry, GroupMap, is_complete, is_on_disk, find, erase}
use transfer_queue.BufferShard.Entries.{Keyed}
use transfer_queue.BufferShard.Read.{
  Scan, take_entry, scan_groups, erase_all, count_trajectories, scan_phase, finish_read,
  read_ready_groups,
}

module _ {F : Type 0} where
  abbrev pub InMemory : GroupMap F → Type 0
  InMemory [] = Unit {0}
  InMemory ((id, e) ∷ l) = ((g : TrajectoryGroup F) × (e.group_ptr ≡ some g)) × InMemory l

  -- The groups that are ready, in the order of the map, and the entries that are not.
  abbrev group_if_ready : Option (TrajectoryGroup F) → List (TrajectoryGroup F)
  group_if_ready none = []
  group_if_ready (some g) = if g.is_complete then g ∷ [] else []

  unfoldable pub ready_of : GroupMap F → List (TrajectoryGroup F)
  ready_of [] = []
  ready_of ((id, e) ∷ l) = group_if_ready e.group_ptr ++ ready_of l

  unfoldable pub waiting : GroupMap F → GroupMap F
  waiting [] = []
  waiting ((id, e) ∷ l) = if is_complete e then waiting l else (id, e) ∷ waiting l

  unfoldable pub ready_ids : GroupMap F → List Str
  ready_ids [] = []
  ready_ids ((id, e) ∷ l) = if is_complete e then id ∷ ready_ids l else ready_ids l

  -- The map with the ready groups moved out.
  unfoldable pub emptied : GroupMap F → GroupMap F
  emptied [] = []
  emptied ((id, e) ∷ l) =
      (id, if is_complete e then record e { group_ptr = none } else e) ∷ emptied l

  scan-InMemory :
      (l : GroupMap F) (c : Scan F)
      → InMemory l
      → scan_groups (pos 0) l c
        ≡ ok (
          emptied l,
          record c {
            result = c.result ++ ready_of l;
            ids_to_remove = c.ids_to_remove ++ ready_ids l;
            consumed = c.consumed + count_trajectories (ready_of l);
          },
        )
  unfolding scan_groups take_entry emptied ready_of ready_ids count_trajectories is_complete
      is_on_disk
  scan-InMemory [] c m = ground (arith, append-nil c.result, append-nil c.ids_to_remove)
  scan-InMemory ((id, e) ∷ l) c m = ground (
    arith,
    m,
    scan-InMemory l c m.1,
    scan-InMemory l
        (record c {
          ids_to_remove = c.ids_to_remove ++ id ∷ [];
          consumed = c.consumed + length m.0.0.trajectories;
          result = c.result ++ m.0.0 ∷ [];
        })
        m.1,
    append_assoc c.result (m.0.0 ∷ []) (ready_of l),
    append_assoc c.ids_to_remove (id ∷ []) (ready_ids l),
  )

  erase_ne :
      (j k : Str) (e : GroupEntry F) (m : GroupMap F)
      → ¬ (j ≡ k)
      → erase j ((k, e) ∷ m) ≡ (k, e) ∷ erase j m
  unfolding erase
  erase_ne j k e m h = if_neg (Str-discrete j k) h _ _

  erase_self : (k : Str) (e : GroupEntry F) (m : GroupMap F) → erase k ((k, e) ∷ m) ≡ m
  unfolding erase
  erase_self k e m = if_pos (Str-discrete k k) refl _ _

  find_tail :
      (k j : Str) (x : GroupEntry F) (l : GroupMap F)
      → find k ((j, x) ∷ l) ≡ none
      → (¬ (j ≡ k)) × (find k l ≡ none)
  unfolding find
  find_tail k j x l h = (λ p. absurd (ground (arith, p)), ground arith)

  -- Erasing keys that an entry does not have keeps the entry.
  erase_all-ready_ids :
      (k : Str) (e : GroupEntry F) (l m : GroupMap F)
      → find k l ≡ none
      → erase_all (ready_ids l) ((k, e) ∷ m) ≡ (k, e) ∷ erase_all (ready_ids l) m
  unfolding erase_all ready_ids
  erase_all-ready_ids k e [] m h = refl
  erase_all-ready_ids k e ((j, x) ∷ l) m h =
      let t = find_tail k j x l h in
      elim (Bool-cases (is_complete x)) [
        | inl done ↦ rw done (
            ap (erase_all (ready_ids l)) (erase_ne j k e m t.0)
            ∙ erase_all-ready_ids k e l (erase j m) t.1)
        | inr more ↦ rw more (erase_all-ready_ids k e l m t.1)
      ]

  -- The ids of the first part go, and the rest stays.
  pub erase_all-first :
      (l m : GroupMap F) → Keyed l → erase_all (ready_ids l) (emptied l ++ m) ≡ waiting l ++ m
  unfolding erase_all ready_ids emptied waiting
  erase_all-first [] m h = refl
  erase_all-first ((k, e) ∷ l) m h = elim (Bool-cases (is_complete e)) [
    | inl done ↦
        rw done
          (ap (erase_all (ready_ids l)) (erase_self k _ (emptied l ++ m)) ∙ erase_all-first l m h.1)
    | inr more ↦
        rw (more, erase_all-ready_ids k e l (emptied l ++ m) h.0)
          (ap (◌∷◌ (k, e)) (erase_all-first l m h.1))
  ]

  pub erase_all-emptied :
      (l : GroupMap F) → Keyed l → erase_all (ready_ids l) (emptied l) ≡ waiting l
  erase_all-emptied l h =
      ap (erase_all (ready_ids l)) (sym (append-nil (emptied l)))
      ∙ erase_all-first l [] h
      ∙ append-nil (waiting l)

module _ {W H F : Type 0} (rt : Runtime W H F) where
  -- With no limit and every group in memory, `read_ready_groups` returns exactly the complete
  -- groups, in the order of the map, leaves exactly the others, and counts each trajectory that it
  -- returns once.
  pub read-InMemory :
      (core : Core W F)
      → Keyed core.shard.groups
      → InMemory core.shard.groups
      → read_ready_groups rt (pos 0) core ≡ (
        ok (ready_of core.shard.groups),
        record core {
          shard = record core.shard {
            groups = waiting core.shard.groups;
            total_consumed =
                core.shard.total_consumed + count_trajectories (ready_of core.shard.groups);
          };
        },
      )
  unfolding read_ready_groups scan_phase finish_read count_trajectories DiskStorage.load_batch
      for_each
  read-InMemory core keyed m = rw (scan-InMemory core.shard.groups _ m) (
      ground
        (arith, append-nil (ready_of core.shard.groups), erase_all-emptied core.shard.groups keyed))
