-- ===== src/BufferShard/ResetStep.antt =====
-- `reset` of server/buffer_shard.cc is a step of the contract: every group goes, with its file.
use transfer_queue.Prelude.{◌≡◌, refl, ap, ◌∙◌, [], none, arith}
use transfer_queue.Action.{Result, ok}
use transfer_queue.Platform.Runtime.{Runtime, View, IsCodec, IsReliable}
use transfer_queue.DedupFilter.Refines.{held}
use transfer_queue.DiskStorage.Batch.{Framed}
use transfer_queue.DiskStorage.Loads.{Misses-outside, remove_batch_lem, AllLoadable-Exists}
use transfer_queue.BufferShard.{Core}
use transfer_queue.BufferShard.Manage.{disk_offsets, reset}
use transfer_queue.BufferShard.Deletes.{reset-Emptied}
use transfer_queue.BufferShard.Filed.{disk_groups, AllFiled-AllLoadable, AllFiled-Distinct}
use transfer_queue.BufferShard.Sound.{Sound, Sound-AllFiled}
use transfer_queue.BufferShard.Contract.{Groups}

module _ {W H F : Type 0} (rt : Runtime W H F) (v : View W H) (codec : IsCodec rt)
    (reliable : IsReliable rt v) where
  abbrev pub no_groups : Groups F
  no_groups q = none

  pub record ResetDone (core : Core W F) (r : Result (Unit {0}) × Core W F) : Type 0 where
    pub returned : r.0 ≡ ok tt
    pub sound : Sound rt v r.1 no_groups
    pub storage : r.1.shard.disk_storage ≡ core.shard.disk_storage
    pub framed : Framed rt v core.shard.disk_storage core.env r.1.env
    pub capacity : r.1.shard.dedup_filter.max_size ≡ core.shard.dedup_filter.max_size
    pub forgotten : held r.1.shard.dedup_filter ≡ []
    pub total : r.1.shard.total_trajectories ≡ 0
    pub consumed : r.1.shard.total_consumed ≡ 0

  -- On a machine where no file operation fails, the files of all groups on disk can be removed.
  reset_returns :
      (core : Core W F) (view : Groups F)
      → Sound rt v core view
      → ((reset rt core).0 ≡ ok tt)
        × Framed rt v core.shard.disk_storage core.env (reset rt core).1.env
  unfolding reset
  reset_returns core view s =
      let d = core.shard.disk_storage in
      let l = core.shard.groups in
      let filed = Sound-AllFiled rt v core view s in
      let x =
        remove_batch_lem rt v d codec reliable s.initialized (disk_offsets l) core.env.world
          (AllFiled-Distinct rt v d core.env view codec reliable s.initialized l s.represents.keyed
            filed)
          (AllLoadable-Exists rt v d codec reliable s.initialized (disk_offsets l)
            (disk_groups rt v d core.env view l filed) core.env.world
            (AllFiled-AllLoadable rt v d core.env view l filed)) in
      rw (x.returned) (
        refl,
        record {
          elsewhere = λ q h. x.same q (Misses-outside rt v d q (disk_offsets l) h);
          grows = omega (arith, x.later);
        },
      )

  -- On a machine where no file operation fails, a reset returns and leaves no group, no remembered
  -- uid and no count.
  pub reset-ResetDone :
      (core : Core W F) (view : Groups F) → Sound rt v core view → ResetDone core (reset rt core)
  reset-ResetDone core view s =
      let e = reset-Emptied rt v core s.valid in
      record {
        returned = (reset_returns core view s).0;
        storage = e.storage;
        framed = (reset_returns core view s).1;
        sound = record {
          initialized = ap (λ x. x.initialized) e.storage ∙ s.initialized;
          valid = e.valid;
          represents = e.represents;
          named = λ q g h. absurd (ground (arith, h));
          fits = λ q g h. absurd (ground (arith, h));
        };
        capacity = e.capacity;
        forgotten = e.forgotten;
        total = e.total;
        consumed = e.consumed;
      }
