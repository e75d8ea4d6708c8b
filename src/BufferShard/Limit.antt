-- ===== src/BufferShard/Limit.antt =====
-- The limit of `read_ready_groups` of server/buffer_shard.cc.
use transfer_queue.Prelude.{
  ℕ, Str, suc, ◌+◌, ◌^◌, ◌≤◌, ◌<◌, ◌≡◌, refl, ap, subst, false, Bool-cases, inl, inr, List, [], ◌∷◌,
  Option-cases, length, length-append, arith,
}
use transfer_queue.Prelude.Int.{pos}
use transfer_queue.Action.{Action, Result, ok, err, continue, for_each}
use transfer_queue.Platform.Runtime.{Runtime}
use transfer_queue.DiskStorage
use transfer_queue.BufferShard.{Core, on_world}
use transfer_queue.BufferShard.Groups.{GroupEntry, GroupMap, is_complete, is_on_disk}
use transfer_queue.BufferShard.KeptKeys.{Result-cases}
use transfer_queue.BufferShard.Read.{
  Scan, reached, take_entry, after_scan, scan_groups, scan_phase, finish_read, read_ready_groups,
}

-- A result, if there is one, is as stated.
abbrev pub Ensures : {A : Type 0} → (A → Type 0) → Result A → Type 0
Ensures P (ok a) = P a
Ensures P (err e) = Unit {0}

pub Ensures-continue :
    {S A B : Type 0} (P : A → Type 0) (Q : B → Type 0) (r : Result A × S) (f : A → Action S B)
    → Ensures P r.0
    → ((a : A) (s : S) → P a → Ensures Q (f a s).0)
    → Ensures Q (continue r f).0
Ensures-continue P Q (ok a, s) f p h = h a s p
Ensures-continue P Q (err e, s) f p h = tt

pub Ensures-weaken :
    {A : Type 0} (P Q : A → Type 0) (r : Result A)
    → ((a : A) → P a → Q a)
    → Ensures P r
    → Ensures Q r
Ensures-weaken P Q (ok a) f h = f a h
Ensures-weaken P Q (err e) f h = tt

pub any_result : {A : Type 0} (r : Result A) → Ensures (λ a. Unit {0}) r
any_result (ok a) = tt
any_result (err e) = tt

-- The results of `do_for_each` are as many as its elements.
pub length-for_each :
    {S A B : Type 0} (f : A → Action S B) (l : List A) (s : S)
    → Ensures (λ bs. length bs ≡ length l) (for_each f l s).0
unfolding for_each
length-for_each f [] s = refl
length-for_each f (a ∷ l) s =
    Ensures-continue (λ b. Unit {0}) (λ bs. length bs ≡ suc (length l)) (f a s) _
      (any_result (f a s).0)
      (λ b s' p.
        Ensures-continue (λ bs. length bs ≡ length l) (λ bs. length bs ≡ suc (length l))
          (for_each f l s') _ (length-for_each f l s') (λ bs s'' q. ap suc q))

-- Under 2^31, the test of the limit is exact.
below_limit : (n k : ℕ) → 0 < n → n < 2 ^ 31 → k ≤ n → reached (pos n) k ≡ false → k < n
below_limit n k p b h e = ground (arith, p, b, h, e)

module _ {F : Type 0} where
  -- What a scan has collected.
  abbrev pub collected : Scan F → ℕ
  collected c = length c.result + length c.offsets_to_load

  take_entry-collected :
      (id : Str) (e : GroupEntry F) (c : Scan F)
      → Ensures (λ r. collected r.1 ≡ suc (collected c)) (take_entry id e c)
  unfolding take_entry
  take_entry-collected id e c = elim (Bool-cases (is_on_disk e)) [
    | inl disk ↦ rw (disk) (omega (arith, length-append c.offsets_to_load (e.disk_offset ∷ [])))
    | inr memory ↦ elim (Option-cases e.group_ptr) [
      | inl gone ↦ rw (memory, gone) tt
      | inr (g, there) ↦ rw (memory, there) (omega (arith, length-append c.result (g ∷ [])))
    ]
  ]

  after_scan-Ensures :
      (P : Scan F → Type 0) (x : Str × GroupEntry F) (r : Result (GroupMap F × Scan F))
      → Ensures (λ a. P a.1) r
      → Ensures (λ a. P a.1) (after_scan x r)
  after_scan-Ensures P x (ok (l, c)) h = h
  after_scan-Ensures P x (err e) h = tt

  scan-collected :
      (n : ℕ) (l : GroupMap F) (c : Scan F)
      → 0 < n
      → n < 2 ^ 31
      → collected c ≤ n
      → Ensures (λ a. collected a.1 ≤ n) (scan_groups (pos n) l c)
  unfolding scan_groups
  scan-collected n [] c p b h = h
  scan-collected n ((id, e) ∷ l) c p b h = elim (Bool-cases (is_complete e)) [
    | inr more ↦
        rw (more, scan_groups)
          (after_scan-Ensures (λ x. collected x ≤ n) (id, e) _ (scan-collected n l c p b h))
    | inl done ↦ elim (Bool-cases (reached (pos n) (collected c))) [
      | inl full ↦ rw (done, scan_groups, full) h
      | inr room ↦ elim (Result-cases (take_entry id e c)) [
        | inl (r, taken) ↦
            let one : collected r.1 ≡ suc (collected c) =
              subst (Ensures (λ a. collected a.1 ≡ suc (collected c))) taken
                (take_entry-collected id e c) in
            rw (done, scan_groups, room, taken)
              (after_scan-Ensures (λ x. collected x ≤ n) (id, r.0) _
                (scan-collected n l r.1 p b
                  (omega (arith, one, below_limit n (collected c) p b h room))))
        | inr (x, failed) ↦ rw (done, scan_groups, room, failed) tt
      ]
    ]
  ]

module _ {W H F : Type 0} (rt : Runtime W H F) where
  scan_phase-collected :
      (n : ℕ) (core : Core W F)
      → 0 < n
      → n < 2 ^ 31
      → Ensures (λ c. collected c ≤ n) (scan_phase rt (pos n) core).0
  unfolding scan_phase
  scan_phase-collected n core p b =
      let start : Scan F = record {
        result = [];
        offsets_to_load = [];
        ids_to_remove = [];
        consumed = core.shard.total_consumed;
        disk_usage = core.shard.disk_usage_bytes;
      } in
      Ensures-continue (λ a. collected a.1 ≤ n) (λ c. collected c ≤ n)
        (scan_groups (pos n) core.shard.groups start, core) _
        (scan-collected n core.shard.groups start p b (omega arith)) (λ a s h. h)

  length-finish_read :
      (c : Scan F) (core : Core W F)
      → Ensures (λ gs. length gs ≡ collected c) (finish_read rt c core).0
  unfolding finish_read DiskStorage.load_batch
  length-finish_read c core =
      Ensures-continue (λ loaded. length loaded ≡ length c.offsets_to_load)
        (λ gs. length gs ≡ collected c)
        (on_world (DiskStorage.load_batch rt core.shard.disk_storage c.offsets_to_load) core) _
        (length-for_each (DiskStorage.load rt core.shard.disk_storage) c.offsets_to_load
          core.env.world)
        (λ loaded s h.
          Ensures-continue (λ u. Unit {0}) (λ gs. length gs ≡ collected c)
            (on_world (for_each (DiskStorage.remove rt s.shard.disk_storage) c.offsets_to_load) _) _
            (any_result _) (λ u s' p. omega (arith, length-append c.result loaded, h)))

  -- With a positive limit under 2^31, a read returns at most as many groups.
  pub length-read_ready_groups-le :
      (n : ℕ) (core : Core W F)
      → 0 < n
      → n < 2 ^ 31
      → Ensures (λ gs. length gs ≤ n) (read_ready_groups rt (pos n) core).0
  unfolding read_ready_groups
  length-read_ready_groups-le n core p b =
      Ensures-continue (λ c. collected c ≤ n) (λ gs. length gs ≤ n) (scan_phase rt (pos n) core) _
        (scan_phase-collected n core p b)
        (λ c s h.
          Ensures-weaken (λ gs. length gs ≡ collected c) (λ gs. length gs ≤ n)
            (finish_read rt c s).0 (λ gs e. omega (arith, e, h)) (length-finish_read c s))
