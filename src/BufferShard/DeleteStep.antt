-- ===== src/BufferShard/DeleteStep.antt =====
-- `delete_instance` of server/buffer_shard.cc is a step of the contract: the file of the deleted
-- group goes, and the files of the others stay.
use transfer_queue.Prelude.{
  ℕ, ◌≤◌, ◌≡◌, ◌≢◌, refl, sym, ap, subst, ◌∙◌, Bool, true, false, inl, inr, Option, none, some, ite,
  if_pos, if_neg, Str, Str-discrete, arith,
}
use native.Mathlib.Nat.{le_trans}
use transfer_queue.Prelude.Int.{ℤ}
use transfer_queue.Action.{Result, ok}
use transfer_queue.Platform.Runtime.{Runtime, View, IsCodec, IsReliable}
use transfer_queue.Proto.{TrajectoryGroup}
use transfer_queue.DedupFilter.Refines.{IsValid}
use transfer_queue.DiskStorage.{file_name, remove, frame}
use transfer_queue.DiskStorage.RoundTrip.{file_name-injective}
use transfer_queue.DiskStorage.Batch.{bound, Framed}
use transfer_queue.BufferShard.{Core}
use transfer_queue.BufferShard.Groups.{GroupEntry, find, is_on_disk}
use transfer_queue.BufferShard.Represents.{Matches}
use transfer_queue.BufferShard.Manage.{drop_entry, delete_found, delete_instance}
use transfer_queue.BufferShard.Deletes.{delete_instance-Deleted}
use transfer_queue.BufferShard.Ready.{disk_entry}
use transfer_queue.BufferShard.Contract.{Groups, Step, delete, done, deleted}
use transfer_queue.BufferShard.Filed.{find-All, same_file, Filed-IsLoadable}
use transfer_queue.BufferShard.Sound.{Sound, Sound-AllFiled}

module _ {W H F : Type 0} (rt : Runtime W H F) (v : View W H) (codec : IsCodec rt)
    (reliable : IsReliable rt v) where
  -- What a deletion does outside the map.
  record Elsewhere (id : Str) (core after : Core W F) : Type 0 where
    storage : after.shard.disk_storage ≡ core.shard.disk_storage
    same :
        (n : ℕ)
        → ((e : GroupEntry F)
            → find id core.shard.groups ≡ some e
            → is_on_disk e ≡ true
            → n ≢ e.disk_offset)
        → v.contents after.env.world (file_name rt core.shard.disk_storage n)
          ≡ v.contents core.env.world (file_name rt core.shard.disk_storage n)
    elsewhere :
        (q : Str)
        → ((n : ℕ) → q ≢ file_name rt core.shard.disk_storage n)
        → v.contents after.env.world q ≡ v.contents core.env.world q
    grows :
        bound rt v core.shard.disk_storage core.env ≤ bound rt v core.shard.disk_storage after.env

  drop_entry-Elsewhere :
      (disk : Bool) (id : Str) (e : GroupEntry F) (view : Groups F) (core : Core W F)
      → Sound rt v core view
      → is_on_disk e ≡ disk
      → find id core.shard.groups ≡ some e
      → Elsewhere id core (drop_entry rt disk id e core.shard core).1
  unfolding drop_entry remove
  drop_entry-Elsewhere false id e view core s h there = record {
    storage = refl;
    same = λ n other. refl;
    elsewhere = λ q h. refl;
    grows = omega arith;
  }
  drop_entry-Elsewhere true id e view core s h there =
      let d = core.shard.disk_storage in
      let f = find-All _ id e core.shard.groups (Sound-AllFiled rt v core view s) there in
      let file = (Filed-IsLoadable rt v d core.env view id e f h).stored in
      let (gone, wrote) =
        reliable.remove_file_lem (file_name rt d e.disk_offset) (frame file.body) core.env.world
          file.file in
      rw (s.initialized) (record {
        storage = refl;
        same = λ n other. wrote.same (file_name rt d n) (λ clash.
            other e there h (file_name-injective rt v reliable d n e.disk_offset codec clash));
        elsewhere = λ q h. wrote.same q (h e.disk_offset);
        grows = omega (arith, wrote.later);
      })

  delete_found-Elsewhere :
      (id : Str) (o : Option (GroupEntry F)) (view : Groups F) (core : Core W F)
      → Sound rt v core view
      → find id core.shard.groups ≡ o
      → Elsewhere id core (delete_found rt id core.shard o core).1
  unfolding delete_found
  delete_found-Elsewhere id none view core s h = record {
    storage = refl;
    same = λ n other. refl;
    elsewhere = λ q h. refl;
    grows = omega arith;
  }
  delete_found-Elsewhere id (some e) view core s h =
      drop_entry-Elsewhere (is_on_disk e) id e view core s refl h

  delete-Elsewhere :
      (id : Str) (view : Groups F) (core : Core W F)
      → Sound rt v core view
      → Elsewhere id core (delete_instance rt id core).1
  unfolding delete_instance
  delete-Elsewhere id view core s =
      delete_found-Elsewhere id (find id core.shard.groups) view core s refl

  -- The group of another instance stands as before.
  other-Matches :
      (id q : Str) (view : Groups F) (core after : Core W F)
      → Sound rt v core view
      → Elsewhere id core after
      → q ≢ id
      → (o : Option (GroupEntry F)) (g : Option (TrajectoryGroup F)) → find q core.shard.groups ≡ o
      → Matches rt v core.shard.disk_storage core.env o g
      → Matches rt v core.shard.disk_storage after.env o g
  other-Matches id q view core after s x n none none there m = tt
  other-Matches id q view core after s x n none (some g) there m = m
  other-Matches id q view core after s x n (some e) none there m = m
  other-Matches id q view core after s x n (some e) (some g) there (inl m) = inl m
  other-Matches id q view core after s x n (some e) (some g) there (inr m) =
      let d = core.shard.disk_storage in
      let all = Sound-AllFiled rt v core view s in
      let here = disk_entry rt v d core.env e g m in
      inr (record {
        pointer = m.pointer;
        disk = record {
          body = m.disk.body;
          serialized = m.disk.serialized;
          file =
              x.same e.disk_offset (λ y at_id on_disk clash. n (
                same_file rt v d core.env view codec reliable s.initialized q id e y
                  (find-All _ q e core.shard.groups all there)
                  (find-All _ id y core.shard.groups all at_id) here on_disk clash))
              ∙ m.disk.file;
          nonzero = m.disk.nonzero;
        };
        given = le_trans m.given x.grows;
        complete = m.complete;
        cached = m.cached;
      })

  abbrev pub without : Str → Groups F → Groups F
  without id view q = ite (Str-discrete q id) none (view q)

  without-some :
      (id : Str) (view : Groups F) (q : Str) (g : TrajectoryGroup F)
      → without id view q ≡ some g
      → view q ≡ some g
  without-some id view q g h = elim (Str-discrete q id) [
    | yes p ↦ absurd (ground (arith, h, p))
    | no n ↦ sym (if_neg (Str-discrete q id) n _ _) ∙ h
  ]

  pub record DeleteDone (size : ℤ) (id : Str) (core : Core W F) (view : Groups F)
      (r : Result (Unit {0}) × Core W F) : Type 0 where
    pub returned : r.0 ≡ ok tt
    pub step : Step size view (without id view) (delete id) done
    pub sound : Sound rt v r.1 (without id view)
    pub filter : r.1.shard.dedup_filter ≡ core.shard.dedup_filter
    pub storage : r.1.shard.disk_storage ≡ core.shard.disk_storage
    pub framed : Framed rt v core.shard.disk_storage core.env r.1.env
    pub total : r.1.shard.total_trajectories ≡ core.shard.total_trajectories
    pub consumed : r.1.shard.total_consumed ≡ core.shard.total_consumed

  -- On a machine where no file operation fails, a deletion removes the group of its instance,
  -- wherever it is, keeps every other group, wherever that is, and changes neither the filter nor
  -- the totals.
  pub delete-DeleteDone :
      (size : ℤ) (id : Str) (core : Core W F) (view : Groups F)
      → Sound rt v core view
      → DeleteDone size id core view (delete_instance rt id core)
  delete-DeleteDone size id core view s =
      let d = core.shard.disk_storage in
      let after = (delete_instance rt id core).1 in
      let gone = delete_instance-Deleted rt id core s.represents.keyed in
      let x = delete-Elsewhere id view core s in
      record {
        returned = gone.returned;
        step = deleted id (λ q. refl);
        sound = record {
          initialized = ap (λ y. y.initialized) x.storage ∙ s.initialized;
          valid = subst (IsValid rt.hash) (sym gone.filter) s.valid;
          represents = record {
            keyed = gone.keyed;
            matches = λ q.
                subst
                  (λ y. Matches rt v y after.env (find q after.shard.groups) (without id view q))
                  (sym x.storage)
                  (elim (Str-discrete q id) [
                    | yes p ↦
                        rw
                          (
                            gone.lookup q,
                            if_pos (Str-discrete q id) p,
                            if_pos (Str-discrete q id) p,
                          )
                          tt
                    | no n ↦
                        rw
                          (
                            gone.lookup q,
                            if_neg (Str-discrete q id) n,
                            if_neg (Str-discrete q id) n,
                          )
                          (other-Matches id q view core after s x n (find q core.shard.groups)
                            (view q) refl (s.represents.matches q))
                  ]);
          };
          named = λ q g h. s.named q g (without-some id view q g h);
          fits = λ q g h. s.fits q g (without-some id view q g h);
        };
        filter = gone.filter;
        storage = x.storage;
        framed = record { elsewhere = x.elsewhere; grows = x.grows };
        total = gone.total;
        consumed = gone.consumed;
      }
