-- ===== src/BufferShard/WriteStep.antt =====
-- A write of server/buffer_shard.cc is a step of the contract, whichever of its three outcomes it has.
use transfer_queue.Prelude.{
  some_injective, suc, ◌+◌, ◌^◌, ◌<◌, ◌≡◌, refl, sym, ap, subst, ◌∙◌, Bool, true, false, Bool-cases,
  inl, inr, Option, none, some, if_pos, if_neg, Str, Str-discrete, length, arith,
}
use transfer_queue.Prelude.Int.{ℤ}
use transfer_queue.Action.{Result, ok}
use transfer_queue.Config.{TransferQueueConfig}
use transfer_queue.Platform.Runtime.{Runtime, View, IsCodec, IsReliable}
use transfer_queue.Proto.{Trajectory, TrajectoryGroup}
use transfer_queue.DedupFilter.{DedupFilter}
use transfer_queue.DedupFilter.Order.{member}
use transfer_queue.DedupFilter.Refines.{IsValid, held}
use transfer_queue.DedupFilter.History.{insert-IsValid}
use transfer_queue.DiskStorage.{DiskStorage, Env}
use transfer_queue.DiskStorage.Batch.{Framed, Framed-refl}
use transfer_queue.BufferShard.{Core}
use transfer_queue.BufferShard.Groups.{
  GroupEntry, GroupMap, find, is_on_disk, entry_or_new, new_group,
}
use transfer_queue.BufferShard.Entries.{IsReordering}
use transfer_queue.BufferShard.Represents.{Matches}
use transfer_queue.BufferShard.Appends.{group_or_new, extended, with_trajectory, in_memory}
use transfer_queue.BufferShard.Accepts.{
  IsNew, checked, write_duplicate, write_dropped, write_accepted,
}
use transfer_queue.BufferShard.Contract.{
  Groups, Step, put, accepted, appended, dropped, refused, total_after,
}
use transfer_queue.BufferShard.Contract.Answers.{Answer}
use transfer_queue.BufferShard.Filed.{Fit}
use transfer_queue.BufferShard.Sound.{Sound}
use transfer_queue.BufferShard.Write.{write}

module _ {W H F : Type 0} (rt : Runtime W H F) (v : View W H) where
  -- The group that a trajectory would go to stays small enough.
  abbrev pub StaysFit : TransferQueueConfig F → Trajectory F → Core W F → Type 0
  StaysFit cfg t core = Fit rt v (
      extended t (
        group_or_new t.instance_id cfg.group_size
          (entry_or_new (find t.instance_id core.shard.groups)).group_ptr))

  -- A write that is a step of the contract, and what it counts.
  pub record WriteDone (cfg : TransferQueueConfig F) (t : Trajectory F) (core : Core W F)
      (view : Groups F) (r : Result Bool × Core W F) : Type 0 where
    pub reply : Bool
    pub after : Groups F
    pub returned : r.0 ≡ ok reply
    pub step : Step cfg.group_size view after (put t) (accepted reply)
    pub sound : Sound rt v r.1 after
    pub storage : r.1.shard.disk_storage ≡ core.shard.disk_storage
    pub framed : Framed rt v core.shard.disk_storage core.env r.1.env
    pub answer : Answer cfg.uid_dedup (held core.shard.dedup_filter) (put t) (accepted reply)
    pub filter : r.1.shard.dedup_filter ≡ checked rt cfg t.uid core.shard.dedup_filter
    pub total : r.1.shard.total_trajectories ≡ total_after step core.shard.total_trajectories
    pub consumed : r.1.shard.total_consumed ≡ core.shard.total_consumed

  -- Only the filter is new.
  with_filter-Sound :
      (core : Core W F) (view : Groups F) (f : DedupFilter F)
      → IsValid rt.hash f
      → Sound rt v core view
      → Sound rt v (record core { shard = record core.shard { dedup_filter = f } }) view
  with_filter-Sound core view f valid s = record {
    initialized = s.initialized;
    valid = valid;
    represents = record { keyed = s.represents.keyed; matches = s.represents.matches };
    named = s.named;
    fits = s.fits;
  }

  new-Answer :
      (cfg : TransferQueueConfig F) (t : Trajectory F) (core : Core W F)
      → IsNew cfg core.shard.dedup_filter t.uid
      → Answer cfg.uid_dedup (held core.shard.dedup_filter) (put t) (accepted true)
  new-Answer cfg t core (inl off) = rw (off) refl
  new-Answer cfg t core (inr new) = ap accepted (ground (arith, new))

  checked-IsValid :
      (cfg : TransferQueueConfig F) (uid : Str) (f : DedupFilter F)
      → IsValid rt.hash f
      → IsValid rt.hash (checked rt cfg uid f)
  checked-IsValid cfg uid f h = elim (Bool-cases cfg.uid_dedup) [
    | inl on ↦ rw (on) (insert-IsValid rt.hash f uid h)
    | inr off ↦ rw (off) h
  ]

  -- The entry on disk stands for a complete group.
  complete_there :
      (d : DiskStorage) (env : Env W) (o : Option (GroupEntry F)) (g : Option (TrajectoryGroup F))
      → is_on_disk (entry_or_new o) ≡ true
      → Matches rt v d env o g
      → (x : TrajectoryGroup F) × (g ≡ some x) × (x.is_complete ≡ true)
  unfolding is_on_disk
  complete_there d env none none h m = absurd (ground (arith, h))
  complete_there d env none (some x) h m = absurd m
  complete_there d env (some e) none h m = absurd m
  complete_there d env (some e) (some x) h (inl m) = absurd (ground (arith, h, m))
  complete_there d env (some e) (some x) h (inr m) = (x, refl, m.complete)

  group_named :
      (t : Trajectory F) (size : ℤ) (o : Option (TrajectoryGroup F))
      → ((g : TrajectoryGroup F) → o ≡ some g → g.instance_id ≡ t.instance_id)
      → (extended t (group_or_new t.instance_id size o)).instance_id ≡ t.instance_id
  unfolding new_group
  group_named t size none h = refl
  group_named t size (some g) h = h g refl

  -- What holds of the groups before and of the new one holds of all groups after an append.
  with_trajectory-all :
      (P : Str → TrajectoryGroup F → Type 0) (size : ℤ) (t : Trajectory F) (view : Groups F)
      → ((q : Str) (g : TrajectoryGroup F) → view q ≡ some g → P q g)
      → P t.instance_id (extended t (group_or_new t.instance_id size (view t.instance_id)))
      → (q : Str) (g : TrajectoryGroup F) → with_trajectory size t view q ≡ some g
      → P q g
  unfolding with_trajectory
  with_trajectory-all P size t view old new q g h = elim (Str-discrete q t.instance_id) [
    | yes p ↦
        let same = some_injective (sym (if_pos (Str-discrete q t.instance_id) p _ _) ∙ h) in
        subst (P q) same (
          subst (λ k. P k (extended t (group_or_new t.instance_id size (view t.instance_id))))
            (sym p) new)
    | no n ↦ old q g (sym (if_neg (Str-discrete q t.instance_id) n _ _) ∙ h)
  ]

module _ {W H F : Type 0} (rt : Runtime W H F) (v : View W H) (codec : IsCodec rt)
    (reliable : IsReliable rt v) (arrange : GroupMap F → GroupMap F)
    (reorders : IsReordering arrange) (cfg : TransferQueueConfig F) where
  append-WriteDone :
      (t : Trajectory F) (core : Core W F) (view : Groups F)
      → Sound rt v core view
      → IsNew cfg core.shard.dedup_filter t.uid
      → is_on_disk (entry_or_new (find t.instance_id core.shard.groups)) ≡ false
      → StaysFit rt v cfg t core
      → core.env.counter + suc (length core.shard.groups) < 2 ^ 63
      → WriteDone rt v cfg t core view (write rt arrange cfg t core)
  unfolding total_after
  append-WriteDone t core view s new here fit few =
      let id = t.instance_id in
      let known =
        in_memory rt v arrange reorders core.shard.disk_storage core.env (find id core.shard.groups)
          (view id) (s.represents.matches id) here in
      let fit' = subst (λ o. Fit rt v (extended t (group_or_new id cfg.group_size o))) known fit in
      let all_fit =
        with_trajectory-all rt v (λ q g. Fit rt v g) cfg.group_size t view s.fits fit' in
      let a =
        write_accepted rt arrange v reorders codec reliable cfg t view core s.valid new
          s.initialized s.represents here (λ q g h. let f = all_fit q g h in (f.0, f.1)) few in
      record {
        reply = true;
        after = with_trajectory cfg.group_size t view;
        returned = a.returned;
        step = appended t (λ q. refl);
        sound = record {
          initialized = ap (λ x. x.initialized) a.storage ∙ s.initialized;
          valid =
              subst (IsValid rt.hash) (sym a.filter)
                (checked-IsValid rt v cfg t.uid core.shard.dedup_filter s.valid);
          represents = a.represents;
          named =
              with_trajectory-all rt v (λ q g. g.instance_id ≡ q) cfg.group_size t view s.named
                (group_named rt v t cfg.group_size (view id) (s.named id));
          fits = all_fit;
        };
        answer = new-Answer rt v cfg t core new;
        filter = a.filter;
        storage = a.storage;
        framed = a.framed;
        total = a.total ∙ omega arith;
        consumed = a.consumed;
      }

  fresh-WriteDone :
      (t : Trajectory F) (core : Core W F) (view : Groups F)
      → Sound rt v core view
      → IsNew cfg core.shard.dedup_filter t.uid
      → StaysFit rt v cfg t core
      → core.env.counter + suc (length core.shard.groups) < 2 ^ 63
      → WriteDone rt v cfg t core view (write rt arrange cfg t core)
  unfolding total_after
  fresh-WriteDone t core view s new fit few =
      elim (Bool-cases (is_on_disk (entry_or_new (find t.instance_id core.shard.groups)))) [
        | inr here ↦ append-WriteDone t core view s new here fit few
        | inl there ↦
            let (g, known, full) =
              complete_there rt v core.shard.disk_storage core.env
                (find t.instance_id core.shard.groups) (view t.instance_id) there
                (s.represents.matches t.instance_id) in
            subst (WriteDone rt v cfg t core view)
              (sym (write_dropped rt arrange cfg t core s.valid new there))
              (record {
                reply = true;
                after = view;
                returned = refl;
                answer = new-Answer rt v cfg t core new;
                filter = refl;
                storage = refl;
                framed = Framed-refl rt v core.shard.disk_storage core.env;
                step = dropped t g known full (λ q. refl);
                sound =
                    with_filter-Sound rt v core view _
                      (checked-IsValid rt v cfg t.uid core.shard.dedup_filter s.valid) s;
                total = refl;
                consumed = refl;
              })
      ]

  -- On a machine where no file operation fails, a write does what the contract allows: it appends
  -- the trajectory, drops it because its group is complete, or refuses its uid.
  pub write-WriteDone :
      (t : Trajectory F) (core : Core W F) (view : Groups F)
      → Sound rt v core view
      → StaysFit rt v cfg t core
      → core.env.counter + suc (length core.shard.groups) < 2 ^ 63
      → WriteDone rt v cfg t core view (write rt arrange cfg t core)
  unfolding total_after
  write-WriteDone t core view s fit few = elim (Bool-cases cfg.uid_dedup) [
    | inr off ↦ fresh-WriteDone t core view s (inl off) fit few
    | inl on ↦ elim (Bool-cases (member t.uid (held core.shard.dedup_filter))) [
      | inr new ↦ fresh-WriteDone t core view s (inr new) fit few
      | inl known ↦
          subst (WriteDone rt v cfg t core view)
            (sym (write_duplicate rt arrange cfg t core on s.valid known))
            (record {
              reply = false;
              after = view;
              returned = refl;
              answer = ground (arith, on, known);
              filter = rw (on) refl;
              storage = refl;
              framed = Framed-refl rt v core.shard.disk_storage core.env;
              step = refused t (λ q. refl);
              sound =
                  with_filter-Sound rt v core view _
                    (insert-IsValid rt.hash core.shard.dedup_filter t.uid s.valid) s;
              total = refl;
              consumed = refl;
            })
    ]
  ]
