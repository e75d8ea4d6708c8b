-- ===== src/BufferShard/Prefix.antt =====
-- `read_ready_groups` of server/buffer_shard.cc with any limit: the scan takes the complete groups
-- of a first part of the map and does not touch the rest.
use transfer_queue.Prelude.{
  ◌+◌, ◌≡◌, ◌⊎◌, refl, ap, sym, subst, ◌∙◌, true, false, Bool-cases, inl, inr, [], ◌∷◌, ◌++◌, none,
  some, length, All, if◌then◌else◌, arith, Str,
}
use mathlib.Core.List.{append-nil, append_assoc}
use transfer_queue.Prelude.Int.{ℤ, pos, ◌-ℤ◌}
use transfer_queue.Action.{Result, ok}
use transfer_queue.Proto.{TrajectoryGroup}
use transfer_queue.BufferShard.Groups.{GroupEntry, GroupMap, is_complete, is_on_disk}
use transfer_queue.BufferShard.Manage.{disk_offsets}
use transfer_queue.BufferShard.Consume.{ready_of, ready_ids, emptied}
use transfer_queue.BufferShard.Drain.{IsPlaced, usage_after}
use transfer_queue.BufferShard.Read.{
  Scan, reached, take_entry, after_scan, scan_groups, count_trajectories,
}

module _ {F : Type 0} where
  -- A scan that has taken the complete groups of these entries.
  abbrev pub gathered : GroupMap F → Scan F → Scan F
  gathered l c = record c {
    result = c.result ++ ready_of l;
    offsets_to_load = c.offsets_to_load ++ disk_offsets l;
    ids_to_remove = c.ids_to_remove ++ ready_ids l;
    consumed = c.consumed + count_trajectories (ready_of l);
    disk_usage = usage_after l c.disk_usage;
  }

  abbrev pub IsFullScan : ℤ → Scan F → Type 0
  IsFullScan n c = reached n (length c.result + length c.offsets_to_load) ≡ true

  -- The part of the map that was scanned, and the rest.
  pub record Scanned (n : ℤ) (l : GroupMap F) (c : Scan F) (r : Result (GroupMap F × Scan F))
      : Type 0 where
    pub first : GroupMap F
    pub rest : GroupMap F
    pub parts : l ≡ first ++ rest
    pub returned : r ≡ ok (emptied first ++ rest, gathered first c)
    pub limit : (rest ≡ []) ⊎ IsFullScan n (gathered first c)

  gathered-nil : (c : Scan F) → gathered [] c ≡ c
  unfolding ready_of disk_offsets ready_ids count_trajectories usage_after
  gathered-nil c =
      ground (arith, append-nil c.result, append-nil c.offsets_to_load, append-nil c.ids_to_remove)

  -- An entry after the scan has passed it.
  abbrev moved_out : GroupEntry F → GroupEntry F
  moved_out e = if is_complete e then record e { group_ptr = none } else e

  -- One more entry in front.
  Scanned-cons :
      (n : ℤ) (id : Str) (e e' : GroupEntry F) (l : GroupMap F) (c c' : Scan F)
      (r : Result (GroupMap F × Scan F))
      → e' ≡ moved_out e
      → ((m : GroupMap F) → gathered m c' ≡ gathered ((id, e) ∷ m) c)
      → Scanned n l c' r
      → Scanned n ((id, e) ∷ l) c (after_scan (id, e') r)
  unfolding emptied
  Scanned-cons n id e e' l c c' r h g s = record {
    first = (id, e) ∷ s.first;
    rest = s.rest;
    parts = ap (◌∷◌ (id, e)) s.parts;
    returned =
        ap (after_scan (id, e')) s.returned
        ∙ ap (λ x. ok ((id, x) ∷ (emptied s.first ++ s.rest), gathered s.first c')) h
        ∙ ap (λ x. ok ((id, moved_out e) ∷ (emptied s.first ++ s.rest), x)) (g s.first);
    limit = elim s.limit [
      | inl all ↦ inl all
      | inr full ↦ inr (subst (IsFullScan n) (g s.first) full)
    ];
  }

  gathered-waiting :
      (id : Str) (e : GroupEntry F) (c : Scan F) (m : GroupMap F)
      → IsPlaced e
      → is_complete e ≡ false
      → gathered m c ≡ gathered ((id, e) ∷ m) c
  unfolding ready_of ready_ids disk_offsets count_trajectories usage_after is_complete is_on_disk
  gathered-waiting id e c m (inl (g, h)) more = ground (arith, h, more)
  gathered-waiting id e c m (inr (h, d)) more = absurd (ground (arith, h, more))

  -- What the scan collects from an entry.
  abbrev from_memory : Str → TrajectoryGroup F → Scan F → Scan F
  from_memory id g c = record c {
    ids_to_remove = c.ids_to_remove ++ id ∷ [];
    consumed = c.consumed + length g.trajectories;
    result = c.result ++ g ∷ [];
  }

  abbrev from_disk : Str → GroupEntry F → Scan F → Scan F
  from_disk id e c = record c {
    ids_to_remove = c.ids_to_remove ++ id ∷ [];
    offsets_to_load = c.offsets_to_load ++ e.disk_offset ∷ [];
    disk_usage = c.disk_usage -ℤ pos e.cached_bytes;
  }

  gathered-memory :
      (id : Str) (e : GroupEntry F) (g : TrajectoryGroup F) (c : Scan F) (m : GroupMap F)
      → e.group_ptr ≡ some g
      → is_complete e ≡ true
      → gathered m (from_memory id g c) ≡ gathered ((id, e) ∷ m) c
  unfolding ready_of ready_ids disk_offsets count_trajectories usage_after is_complete is_on_disk
  gathered-memory id e g c m h done = ground (
    arith,
    h,
    done,
    append_assoc c.result (g ∷ []) (ready_of m),
    append_assoc c.ids_to_remove (id ∷ []) (ready_ids m),
  )

  gathered-disk :
      (id : Str) (e : GroupEntry F) (c : Scan F) (m : GroupMap F)
      → e.group_ptr ≡ none
      → is_on_disk e ≡ true
      → gathered m (from_disk id e c) ≡ gathered ((id, e) ∷ m) c
  unfolding ready_of ready_ids disk_offsets count_trajectories usage_after is_complete is_on_disk
  gathered-disk id e c m h d = ground (
    arith,
    h,
    d,
    append_assoc c.offsets_to_load (e.disk_offset ∷ []) (disk_offsets m),
    append_assoc c.ids_to_remove (id ∷ []) (ready_ids m),
  )

  -- A complete entry below the limit.
  scan-done :
      (n : ℤ) (id : Str) (e : GroupEntry F) (l : GroupMap F) (c : Scan F)
      → IsPlaced e
      → is_complete e ≡ true
      → reached n (length c.result + length c.offsets_to_load) ≡ false
      → ((c' : Scan F) → Scanned n l c' (scan_groups n l c'))
      → Scanned n ((id, e) ∷ l) c (scan_groups n ((id, e) ∷ l) c)
  unfolding scan_groups take_entry is_on_disk is_complete
  scan-done n id e l c (inl (g, h)) done room next =
      let c' = from_memory id g c in
      let step : scan_groups n ((id, e) ∷ l) c
          ≡ after_scan (id, record e { group_ptr = none }) (scan_groups n l c') =
        ground (arith, h, done, room) in
      subst (Scanned n ((id, e) ∷ l) c) (sym step) (
        Scanned-cons n id e (record e { group_ptr = none }) l c c' _ (ground (arith, done))
          (λ m. gathered-memory id e g c m h done) (next c'))
  scan-done n id e l c (inr (h, d)) done room next =
      let c' = from_disk id e c in
      let step : scan_groups n ((id, e) ∷ l) c ≡ after_scan (id, e) (scan_groups n l c') =
        ground (arith, h, d, done, room) in
      subst (Scanned n ((id, e) ∷ l) c) (sym step) (
        Scanned-cons n id e e l c c' _ (ground (arith, h, done)) (λ m. gathered-disk id e c m h d)
          (next c'))

  pub scan-Scanned :
      (n : ℤ) (l : GroupMap F) (c : Scan F)
      → All (λ x. IsPlaced x.1) l
      → Scanned n l c (scan_groups n l c)
  unfolding scan_groups emptied
  scan-Scanned n [] c m = record {
    first = [];
    rest = [];
    parts = refl;
    returned = rw (gathered-nil c) refl;
    limit = inl refl;
  }
  scan-Scanned n ((id, e) ∷ l) c m = elim (Bool-cases (is_complete e)) [
    | inr more ↦
        rw (more, scan_groups)
          (Scanned-cons n id e e l c c _ (rw more refl) (λ k. gathered-waiting id e c k m.0 more)
            (scan-Scanned n l c m.1))
    | inl done ↦ elim (Bool-cases (reached n (length c.result + length c.offsets_to_load))) [
      | inl full ↦
          rw (done, scan_groups, full)
            (record {
              first = [];
              rest = (id, e) ∷ l;
              parts = refl;
              returned = rw (gathered-nil c) refl;
              limit = inr (subst (IsFullScan n) (sym (gathered-nil c)) full);
            })
      | inr room ↦ scan-done n id e l c m.0 done room (λ c'. scan-Scanned n l c' m.1)
    ]
  ]
