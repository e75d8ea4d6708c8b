-- ===== src/BufferShard/Keys.antt =====
-- Which keys `write` of server/buffer_shard.cc can add to the map of groups.
use transfer_queue.Prelude.{
  ℕ, ◌≡◌, subst, ◌∙◌, Bool, true, false, Bool-cases, Option-cases, inl, inr, List, [], ◌∷◌, map,
  none, if_neg, Str, Str-discrete, length, ◌==◌, arith,
}
use transfer_queue.Action.{Action, Result, ok, err, continue}
use transfer_queue.Config.{TransferQueueConfig}
use transfer_queue.Platform.Runtime.{Runtime}
use transfer_queue.Proto.{Trajectory, TrajectoryGroup}
use transfer_queue.DiskStorage
use transfer_queue.BufferShard.{BufferShard, Core, on_env, on_world}
use transfer_queue.BufferShard.Groups.{
  GroupEntry, GroupMap, find, replace, store, entry_or_new, is_on_disk,
}
use transfer_queue.BufferShard.Entries.{
  Keyed, IsReordering, find-replace, replace-Keyed, find-store,
}
use transfer_queue.BufferShard.Spill.{
  choose_groups, spilled_entry, commit_one, commit_spill, commit_chosen, spill_chosen,
  try_spill_groups,
}
use transfer_queue.BufferShard.Write.{
  check_uid, ensure_group, add_to_group, append_in_memory, append_unless, append, append_if, write,
}

-- A result changes nothing that the state has.
pub continue_lem :
    {S A B : Type 0} (P : S → Type 0) (r : Result A × S) (f : A → Action S B)
    → P r.1
    → ((a : A) (s : S) → P s → P (f a s).1)
    → P (continue r f).1
continue_lem P (ok a, s) f p h = h a s p
continue_lem P (err e, s) f p h = p

module _ {W H F : Type 0} (rt : Runtime W H F) (Foreign : Str → Type 0) where
  -- No key is there twice, and no foreign key is there.
  abbrev pub Owns : GroupMap F → Type 0
  Owns l = Keyed l × ((q : Str) → Foreign q → find q l ≡ none)

  abbrev pub Keeps : Core W F → Type 0
  Keeps core = Owns core.shard.groups

  replace-Owns : (id : Str) (e : GroupEntry F) (l : GroupMap F) → Owns l → Owns (replace id e l)
  replace-Owns id e l (keyed, absent) =
      (replace-Keyed id e l keyed, λ q h. ground (arith, find-replace id q e l, absent q h))

  commit_one-Owns :
      (id : Str) (offset : ℕ) (shard : BufferShard F)
      → Owns shard.groups
      → Owns (commit_one rt id offset shard).groups
  unfolding commit_one
  commit_one-Owns id offset shard o = elim (Option-cases (find id shard.groups)) [
    | inl gone ↦ rw (gone, commit_one) o
    | inr (e, there) ↦
        rw (there, commit_one) (replace-Owns id (spilled_entry rt offset e) shard.groups o)
  ]

  commit_spill-Owns :
      (ids : List Str) (offsets : List ℕ) (shard : BufferShard F)
      → Owns shard.groups
      → Owns (commit_spill rt ids offsets shard).groups
  unfolding commit_spill
  commit_spill-Owns [] offsets shard o = o
  commit_spill-Owns (id ∷ ids) [] shard o = o
  commit_spill-Owns (id ∷ ids) (n ∷ offsets) shard o =
      commit_spill-Owns ids offsets (commit_one rt id n shard) (commit_one-Owns id n shard o)

  commit_chosen-Owns :
      (chosen : List (Str × TrajectoryGroup F)) (offsets : List ℕ) (core : Core W F)
      → Keeps core
      → Keeps (commit_chosen rt chosen offsets core).1
  unfolding commit_chosen
  commit_chosen-Owns chosen offsets core o = elim (Bool-cases (length chosen == length offsets)) [
    | inl same ↦
        rw (same, commit_chosen) (commit_spill-Owns (map (λ x. x.0) chosen) offsets core.shard o)
    | inr differ ↦ rw (differ, commit_chosen) o
  ]

  spill_chosen-Owns :
      (cs : List (Str × TrajectoryGroup F)) (core : Core W F)
      → Keeps core
      → Keeps (spill_chosen rt core.shard cs core).1
  unfolding spill_chosen
  spill_chosen-Owns [] core o = o
  spill_chosen-Owns (c ∷ cs) core o =
      continue_lem Keeps
        (on_env (DiskStorage.spill_batch rt core.shard.disk_storage (map (λ x. x.1) (c ∷ cs))) core)
        (commit_chosen rt (c ∷ cs)) o
        (λ offsets later p. commit_chosen-Owns (c ∷ cs) offsets later p)

  try_spill_groups-Owns :
      (cfg : TransferQueueConfig F) (core : Core W F)
      → Keeps core
      → Keeps (try_spill_groups rt cfg core).1
  unfolding try_spill_groups
  try_spill_groups-Owns cfg core o = spill_chosen-Owns (choose_groups rt cfg core.shard) core o

  ensure_group-Owns :
      (cfg : TransferQueueConfig F) (id : Str) (e : GroupEntry F) (core : Core W F)
      → Keeps core
      → Keeps (ensure_group rt cfg id e core).1
  unfolding ensure_group
  ensure_group-Owns cfg id e core o = elim (Option-cases e.group_ptr) [
    | inl fresh ↦
        rw (fresh, ensure_group) (continue_lem Keeps (on_world rt.now core) _ o (λ now s p. p))
    | inr (g, there) ↦ rw (there, ensure_group) o
  ]

  module _ (arrange : GroupMap F → GroupMap F) (reorders : IsReordering arrange) where
    store-Owns :
        (id : Str) (e : GroupEntry F) (l : GroupMap F)
        → ¬ (Foreign id)
        → Owns l
        → Owns (store arrange id e l)
    store-Owns id e l mine (keyed, absent) =
        let (still, lookup) = find-store arrange reorders id e l keyed in
        (
          still,
          λ q h.
              lookup q
              ∙ if_neg (Str-discrete q id) (λ same. mine (subst Foreign same h)) _ _
              ∙ absent q h,
        )

    append_in_memory-Owns :
        (cfg : TransferQueueConfig F) (t : Trajectory F) (e : GroupEntry F) (core : Core W F)
        → ¬ (Foreign t.instance_id)
        → Keeps core
        → Keeps (append_in_memory rt arrange cfg t e core).1
    unfolding append_in_memory add_to_group
    append_in_memory-Owns cfg t e core mine o =
        continue_lem Keeps (ensure_group rt cfg t.instance_id e core) _
          (ensure_group-Owns cfg t.instance_id e core o)
          (λ made s p.
            continue_lem Keeps
              (try_spill_groups rt cfg
                (record s { shard = add_to_group rt arrange t e made.0 made.1 s.shard }))
              _ (try_spill_groups-Owns cfg _ (store-Owns t.instance_id _ s.shard.groups mine p))
              (λ n s' p'. p'))

    append_if-Owns :
        (fresh : Bool) (cfg : TransferQueueConfig F) (t : Trajectory F) (core : Core W F)
        → ¬ (Foreign t.instance_id)
        → Keeps core
        → Keeps (append_if rt arrange fresh cfg t core).1
    unfolding append_if append append_unless
    append_if-Owns false cfg t core mine o = o
    append_if-Owns true cfg t core mine o =
        elim (Bool-cases (is_on_disk (entry_or_new (find t.instance_id core.shard.groups)))) [
          | inl disk ↦ rw disk o
          | inr memory ↦ rw memory (append_in_memory-Owns cfg t _ core mine o)
        ]

    check_uid-Owns :
        (cfg : TransferQueueConfig F) (uid : Str) (core : Core W F)
        → Keeps core
        → Keeps (check_uid rt cfg uid core).1
    unfolding check_uid
    check_uid-Owns cfg uid core o = elim (Bool-cases cfg.uid_dedup) [
      | inl on ↦ rw (on, check_uid) o
      | inr off ↦ rw (off, check_uid) o
    ]

    -- Whatever fails on the way, `write` of a trajectory whose instance is not foreign adds no
    -- foreign key and no key twice.
    pub write-Owns :
        (cfg : TransferQueueConfig F) (t : Trajectory F) (core : Core W F)
        → ¬ (Foreign t.instance_id)
        → Owns core.shard.groups
        → Owns (write rt arrange cfg t core).1.shard.groups
    unfolding write
    write-Owns cfg t core mine o =
        continue_lem Keeps (check_uid rt cfg t.uid core) _ (check_uid-Owns cfg t.uid core o)
          (λ fresh s p. append_if-Owns fresh cfg t s mine p)
