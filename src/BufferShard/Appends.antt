-- ===== src/BufferShard/Appends.antt =====
-- What `write` of server/buffer_shard.cc does to the groups that a shard represents.
use transfer_queue.Prelude.{
  ℕ, suc, ◌+◌, ◌^◌, ◌<◌, ◌≡◌, refl, ap, ◌∙◌, Bool, true, false, inl, inr, [], ◌∷◌, ◌++◌, Option,
  none, some, ite, if_pos, if_neg, Str, Str-discrete, length, length-append, ◌||◌, arith,
}
use transfer_queue.Prelude.Int.{ℤ}
use transfer_queue.Action.{Result, ok}
use transfer_queue.Config.{TransferQueueConfig}
use transfer_queue.Platform.Runtime.{Runtime, View, IsCodec, IsReliable}
use transfer_queue.Proto.{Trajectory, TrajectoryGroup}
use transfer_queue.DedupFilter.{DedupFilter}
use transfer_queue.DiskStorage.{DiskStorage, Env, lift}
use transfer_queue.DiskStorage.Batch.{
  Kept, Kept-refl, Framed, Framed-refl, Framed-trans, IsSerializable,
}
use transfer_queue.BufferShard.{Core}
use transfer_queue.BufferShard.Groups.{
  GroupEntry, GroupMap, find, is_on_disk, entry_or_new, new_group, add_trajectory, is_full,
}
use transfer_queue.BufferShard.Entries.{IsReordering, find-store, length-store-le}
use transfer_queue.BufferShard.Represents.{Matches, Represents, Matches-Kept}
use transfer_queue.BufferShard.Transparent.{try_spill_groups-Invisible}
use transfer_queue.BufferShard.Write.{
  ensure_group, add_to_group, append_unless, append_in_memory, append,
}

module _ {F : Type 0} where
  abbrev pub group_or_new : Str → ℤ → Option (TrajectoryGroup F) → TrajectoryGroup F
  group_or_new id size none = new_group id size
  group_or_new id size (some g) = g

  -- A group with one more trajectory at its end: it is complete once it has its target size.
  abbrev pub extended : Trajectory F → TrajectoryGroup F → TrajectoryGroup F
  extended t g = record g {
    trajectories = g.trajectories ++ t ∷ [];
    is_complete = g.is_complete || is_full (suc (length g.trajectories)) g.group_size;
  }

  add_trajectory-extended :
      (t : Trajectory F) (g : TrajectoryGroup F) → add_trajectory t g ≡ extended t g
  unfolding add_trajectory
  add_trajectory-extended t g = ground (arith, length-append g.trajectories (t ∷ []))

  -- The contract of an accepted write: the trajectory goes to the end of the group of its
  -- instance, which is made if it is not there, and to no other.
  unfoldable pub with_trajectory :
      ℤ → Trajectory F → (Str → Option (TrajectoryGroup F)) → Str → Option (TrajectoryGroup F)
  with_trajectory size t view q =
      ite (Str-discrete q t.instance_id)
        (some (extended t (group_or_new t.instance_id size (view t.instance_id)))) (view q)

module _ {W H F : Type 0} (rt : Runtime W H F) (v : View W H) where
  -- What an accepted write returns and leaves, with the filter `f`.
  pub record Appended (cfg : TransferQueueConfig F) (t : Trajectory F)
      (view : Str → Option (TrajectoryGroup F)) (f : DedupFilter F) (core : Core W F)
      (r : Result Bool × Core W F) : Type 0 where
    pub returned : r.0 ≡ ok true
    pub represents : Represents rt v r.1 (with_trajectory cfg.group_size t view)
    pub total : r.1.shard.total_trajectories ≡ suc core.shard.total_trajectories
    pub consumed : r.1.shard.total_consumed ≡ core.shard.total_consumed
    pub storage : r.1.shard.disk_storage ≡ core.shard.disk_storage
    pub filter : r.1.shard.dedup_filter ≡ f
    pub framed : Framed rt v core.shard.disk_storage core.env r.1.env

module _ {W H F : Type 0} (rt : Runtime W H F) (v : View W H) (arrange : GroupMap F → GroupMap F)
    (reorders : IsReordering arrange) where
  added-Represents :
      (size : ℤ) (t : Trajectory F) (view : Str → Option (TrajectoryGroup F)) (core : Core W F)
      (env' : Env W) (e : GroupEntry F) (g : TrajectoryGroup F) (made : ℕ)
      → g ≡ group_or_new t.instance_id size (view t.instance_id)
      → Kept rt v core.shard.disk_storage core.env env'
      → Represents rt v core view
      → Represents rt v
          (record { shard = add_to_group rt arrange t e g made core.shard; env = env' })
          (with_trajectory size t view)
  unfolding add_to_group with_trajectory
  added-Represents size t view core env' e g made from k r =
      let (keyed, lookup) =
        find-store arrange reorders t.instance_id
          (record e { group_ptr = some (add_trajectory t g); created_time = made })
          core.shard.groups r.keyed in
      record {
        keyed = keyed;
        matches = λ q. rw (lookup q) (elim (Str-discrete q t.instance_id) [
          | yes p ↦
              rw (if_pos (Str-discrete q t.instance_id) p, if_pos (Str-discrete q t.instance_id) p)
                (inl (ap some (add_trajectory-extended t g ∙ ap (extended t) from)))
          | no p ↦
              rw (if_neg (Str-discrete q t.instance_id) p, if_neg (Str-discrete q t.instance_id) p)
                (Matches-Kept rt v core.shard.disk_storage core.env env' _ (view q) k (r.matches q))
        ]);
      }

  -- An entry that is not on disk stands for its group in memory.
  pub in_memory :
      (d : DiskStorage) (env : Env W) (o : Option (GroupEntry F)) (g : Option (TrajectoryGroup F))
      → Matches rt v d env o g
      → is_on_disk (entry_or_new o) ≡ false
      → (entry_or_new o).group_ptr ≡ g
  unfolding is_on_disk
  in_memory d env none none m h = refl
  in_memory d env none (some g) m h = absurd m
  in_memory d env (some e) none m h = absurd m
  in_memory d env (some e) (some g) (inl m) h = m
  in_memory d env (some e) (some g) (inr m) h = absurd (ground (arith, m.pointer, m.disk.nonzero))

  module _ (codec : IsCodec rt) (reliable : IsReliable rt v) where
    pub now-Kept :
        (d : DiskStorage) (env : Env W)
        → (t : ℕ) × ((lift rt.now env).0 ≡ ok t) × Kept rt v d env (lift rt.now env).1
    now-Kept d env =
        let (t, told, positive, bounded, late, time, same) = reliable.now_lem env.world in
        (t, told, record { same = λ n h. same _; grows = omega arith })

    pub now-Framed : (d : DiskStorage) (env : Env W) → Framed rt v d env (lift rt.now env).1
    now-Framed d env =
        let (t, told, positive, bounded, late, time, same) = reliable.now_lem env.world in
        record { elsewhere = λ q h. same q; grows = omega arith }

    -- The group that the trajectory goes to.
    record Ensured (cfg : TransferQueueConfig F) (id : Str) (e : GroupEntry F)
        (known : Option (TrajectoryGroup F)) (core : Core W F) : Type 0 where
      group : TrajectoryGroup F
      made : ℕ
      env' : Env W
      returned : ensure_group rt cfg id e core ≡ (ok (group, made), record core { env = env' })
      from : group ≡ group_or_new id cfg.group_size known
      kept : Kept rt v core.shard.disk_storage core.env env'
      counter : env'.counter ≡ core.env.counter
      framed : Framed rt v core.shard.disk_storage core.env env'

    ensure_group-Ensured :
        (cfg : TransferQueueConfig F) (id : Str) (e : GroupEntry F)
        (known : Option (TrajectoryGroup F)) (core : Core W F)
        → e.group_ptr ≡ known
        → Ensured cfg id e known core
    unfolding ensure_group
    ensure_group-Ensured cfg id e none core h =
        let (t, told, kept) = now-Kept core.shard.disk_storage core.env in
        record {
          group = new_group id cfg.group_size;
          made = t;
          env' = (lift rt.now core.env).1;
          returned = rw (h, ensure_group, told);
          from = refl;
          kept = kept;
          counter = refl;
          framed = now-Framed core.shard.disk_storage core.env;
        }
    ensure_group-Ensured cfg id e (some g) core h = record {
      group = g;
      made = e.created_time;
      env' = core.env;
      returned = rw (h, ensure_group);
      from = refl;
      kept = Kept-refl rt v core.shard.disk_storage core.env;
      counter = refl;
      framed = Framed-refl rt v core.shard.disk_storage core.env;
    }

    -- On a machine where no file operation fails, a trajectory that passes the duplicate check and
    -- whose group is not on disk is added to its group, counted once, and changes no other group,
    -- whatever is spilled on the way.
    pub append_lem :
        (cfg : TransferQueueConfig F) (t : Trajectory F) (view : Str → Option (TrajectoryGroup F))
        (core : Core W F)
        → core.shard.disk_storage.initialized ≡ true
        → Represents rt v core view
        → is_on_disk (entry_or_new (find t.instance_id core.shard.groups)) ≡ false
        → ((q : Str) (g : TrajectoryGroup F)
            → with_trajectory cfg.group_size t view q ≡ some g
            → IsSerializable rt v core.shard.disk_storage g)
        → core.env.counter + suc (length core.shard.groups) < 2 ^ 63
        → Appended rt v cfg t view core.shard.dedup_filter core (append rt arrange cfg t core)
    unfolding append append_unless append_in_memory add_to_group
    append_lem cfg t view core on r here ser few =
        let e = entry_or_new (find t.instance_id core.shard.groups) in
        let x = ensure_group-Ensured cfg t.instance_id e (view t.instance_id) core (
          in_memory core.shard.disk_storage core.env (find t.instance_id core.shard.groups)
            (view t.instance_id) (r.matches t.instance_id) here) in
        let ready : Core W F = record {
          shard = add_to_group rt arrange t e x.group x.made core.shard;
          env = x.env';
        } in
        let (spilled, invisible) =
          try_spill_groups-Invisible rt v (with_trajectory cfg.group_size t view) codec reliable cfg
            ready on
            (added-Represents cfg.group_size t view core x.env' e x.group x.made x.from x.kept r)
            ser
            (omega (
              arith,
              x.counter,
              length-store-le arrange reorders t.instance_id
                  (record e { group_ptr = some (add_trajectory t x.group); created_time = x.made })
                  core.shard.groups,
            )) in
        rw (here, x.returned, spilled)
          (record {
            returned = refl;
            represents = invisible.represents;
            total = invisible.same.total_trajectories;
            consumed = invisible.same.total_consumed;
            storage = invisible.same.disk_storage;
            filter = invisible.same.dedup_filter;
            framed = Framed-trans rt v core.shard.disk_storage x.framed invisible.framed;
          })
