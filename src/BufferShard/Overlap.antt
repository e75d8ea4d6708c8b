-- ===== src/BufferShard/Overlap.antt =====
-- Two calls of `read_ready_groups` of server/buffer_shard.cc on one shard, the second of which scans
-- the map while the first one waits for its files.
use transfer_queue.Prelude.{
  ◌≡◌, refl, ◌∙◌, sym, subst, Str, true, Bool-cases, inl, inr, ◌⊎◌, List, [], ◌∷◌, ◌++◌, none, some,
  All, arith,
}
use mathlib.Core.List.{append-nil, append_assoc}
use transfer_queue.Prelude.Int.{pos, ◌-ℤ◌}
use transfer_queue.Action.{Result, ok, err, null_dereference}
use transfer_queue.Platform.Runtime.{Runtime}
use transfer_queue.Proto.{TrajectoryGroup}
use transfer_queue.BufferShard.{Core}
use transfer_queue.BufferShard.Groups.{GroupEntry, GroupMap, is_complete, is_on_disk}
use transfer_queue.BufferShard.Manage.{disk_offsets}
use transfer_queue.BufferShard.Consume.{ready_of, emptied}
use transfer_queue.BufferShard.Drain.{IsPlaced, scan-IsPlaced}
use transfer_queue.BufferShard.Read.{
  Scan, take_entry, after_scan, scan_groups, scan_phase, read_ready_groups,
}

module _ {F : Type 0} where
  -- A group that was never on disk, or one that is.
  abbrev pub IsSettled : GroupEntry F → Type 0
  IsSettled e =
      ((g : TrajectoryGroup F) × (e.group_ptr ≡ some g) × (e.disk_offset ≡ 0))
      ⊎ ((e.group_ptr ≡ none) × (is_on_disk e ≡ true))

  IsSettled-IsPlaced : (e : GroupEntry F) → IsSettled e → IsPlaced e
  IsSettled-IsPlaced e (inl (g, h, z)) = inl (g, h)
  IsSettled-IsPlaced e (inr h) = inr h

  AllSettled-IsPlaced : (l : GroupMap F) → All (λ x. IsSettled x.1) l → All (λ x. IsPlaced x.1) l
  AllSettled-IsPlaced [] h = tt
  AllSettled-IsPlaced ((id, e) ∷ l) (h, hs) = (IsSettled-IsPlaced e h, AllSettled-IsPlaced l hs)

  -- What a scan meets after another one: nothing of what was in memory and complete, or a null
  -- pointer in its place.
  data Rescan (l : GroupMap F) (c : Scan F) : Result (GroupMap F × Scan F) → Type 0 where
    crashed :
        (g : TrajectoryGroup F) (gs : List (TrajectoryGroup F))
        → ready_of l ≡ g ∷ gs
        → Rescan l c (err null_dereference)
    taken_again :
        (m : GroupMap F) (c' : Scan F)
        → ready_of l ≡ []
        → c'.result ≡ c.result
        → c'.offsets_to_load ≡ c.offsets_to_load ++ disk_offsets l
        → Rescan l c (ok (m, c'))

  -- An entry that the second scan passes.
  Rescan-step :
      (l l' : GroupMap F) (c c' : Scan F) (x : Str × GroupEntry F)
      (r : Result (GroupMap F × Scan F))
      → ready_of l' ≡ ready_of l
      → c'.result ≡ c.result
      → c'.offsets_to_load ++ disk_offsets l ≡ c.offsets_to_load ++ disk_offsets l'
      → Rescan l c' r
      → Rescan l' c (after_scan x r)
  Rescan-step l l' c c' x (err _) a b e (crashed g gs q) = crashed g gs (a ∙ q)
  Rescan-step l l' c c' x (ok (m, d)) a b e (taken_again _ _ q u w) =
      taken_again (x ∷ m) d (a ∙ q) (u ∙ b) (w ∙ e)

  scan-emptied :
      (l : GroupMap F) (c : Scan F)
      → All (λ x. IsSettled x.1) l
      → Rescan l c (scan_groups (pos 0) (emptied l) c)
  unfolding scan_groups emptied ready_of disk_offsets is_complete is_on_disk take_entry
  scan-emptied [] c h = taken_again [] c refl refl (ground (arith, append-nil c.offsets_to_load))
  scan-emptied ((id, e) ∷ l) c (inl (g, p, z), h) = elim (Bool-cases g.is_complete) [
    | inl done ↦
        let crash : scan_groups (pos 0) (emptied ((id, e) ∷ l)) c ≡ err null_dereference =
          ground (arith, p, done, z) in
        subst (Rescan ((id, e) ∷ l) c) (sym crash)
          (crashed g (ready_of l) (ground (arith, p, done)))
    | inr more ↦
        let pass : scan_groups (pos 0) (emptied ((id, e) ∷ l)) c
            ≡ after_scan (id, e) (scan_groups (pos 0) (emptied l) c) =
          ground (arith, p, more) in
        subst (Rescan ((id, e) ∷ l) c) (sym pass) (
          Rescan-step l ((id, e) ∷ l) c c (id, e) _ (ground (arith, p, more)) refl
            (ground (arith, p, z)) (scan-emptied l c h))
  ]
  scan-emptied ((id, e) ∷ l) c (inr (p, d), h) =
      let c' : Scan F = record c {
        ids_to_remove = c.ids_to_remove ++ id ∷ [];
        offsets_to_load = c.offsets_to_load ++ e.disk_offset ∷ [];
        disk_usage = c.disk_usage -ℤ pos e.cached_bytes;
      } in
      let pass : scan_groups (pos 0) (emptied ((id, e) ∷ l)) c
          ≡ after_scan (id, record e { group_ptr = none }) (scan_groups (pos 0) (emptied l) c') =
        ground (arith, p, d) in
      subst (Rescan ((id, e) ∷ l) c) (sym pass) (
        Rescan-step l ((id, e) ∷ l) c c' (id, record e { group_ptr = none }) _ (ground (arith, p))
          refl
          (ground
            (arith, p, d, append_assoc c.offsets_to_load (e.disk_offset ∷ []) (disk_offsets l)))
          (scan-emptied l c' h))

module _ {W H F : Type 0} (rt : Runtime W H F) where
  -- What becomes of a read that follows a scan of these groups.
  abbrev pub Second : GroupMap F → Core W F → Type 0
  Second l core =
      ((g : TrajectoryGroup F) × (gs : List (TrajectoryGroup F)) × (ready_of l ≡ g ∷ gs)
        × ((read_ready_groups rt (pos 0) core).0 ≡ err null_dereference))
      ⊎ ((again : Scan F) × (ready_of l ≡ [])
          × ((scan_phase rt (pos 0) core).0 ≡ ok again)
          × (again.result ≡ [])
          × (again.offsets_to_load ≡ disk_offsets l))

  -- The scan of a read, and what becomes of a second one.
  pub record Overlapping (core : Core W F) (first : Result (Scan F) × Core W F) : Type 0 where
    pub scan : Scan F
    pub scanned : first.0 ≡ ok scan
    pub memory : scan.result ≡ ready_of core.shard.groups
    pub disk : scan.offsets_to_load ≡ disk_offsets core.shard.groups
    pub second : Second core.shard.groups first.1

  -- The scan that a read starts with.
  abbrev pub start_of : Core W F → Scan F
  start_of core = record {
    result = [];
    offsets_to_load = [];
    ids_to_remove = [];
    consumed = core.shard.total_consumed;
    disk_usage = core.shard.disk_usage_bytes;
  }

  Rescan-Second :
      (l : GroupMap F) (core : Core W F) (r : Result (GroupMap F × Scan F))
      → scan_groups (pos 0) core.shard.groups (start_of core) ≡ r
      → Rescan l (start_of core) r
      → Second l core
  unfolding scan_phase read_ready_groups
  Rescan-Second l core (err _) eq (crashed g gs q) = inl (g, gs, q, rw (eq) refl)
  Rescan-Second l core (ok (m, c)) eq (taken_again _ _ q u w) = inr (c, q, rw (eq) refl, u, w)

  -- In a shard whose groups are each in memory, never having been on disk, or on disk, a read
  -- without a limit scans all complete groups. A second read that starts before the first one has
  -- loaded its files dereferences a null pointer if the first one took a group from memory, and
  -- otherwise takes the same files once more.
  pub scan_phase-Overlapping :
      (core : Core W F)
      → All (λ x. IsSettled x.1) core.shard.groups
      → Overlapping core (scan_phase rt (pos 0) core)
  unfolding scan_phase read_ready_groups
  scan_phase-Overlapping core h =
      rw (scan-IsPlaced core.shard.groups _ (AllSettled-IsPlaced core.shard.groups h)) (record {
        scan = _;
        scanned = refl;
        memory = refl;
        disk = refl;
        second = Rescan-Second core.shard.groups _ _ refl (scan-emptied core.shard.groups _ h);
      })
