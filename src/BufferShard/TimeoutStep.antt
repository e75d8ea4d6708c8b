-- ===== src/BufferShard/TimeoutStep.antt =====
-- `check_group_timeouts` of server/buffer_shard.cc is a step of the contract.
use transfer_queue.Prelude.{
  ℕ, ◌+◌, ◌*◌, ◌≡◌, refl, sym, ap, subst, ◌∙◌, true, false, Bool-cases, inl, inr, [], ◌∷◌, Option,
  none, some, some_injective, Str, leb, All, if◌then◌else◌, arith,
}
use transfer_queue.Prelude.Int.{ℤ}
use transfer_queue.Action.{Result, ok}
use transfer_queue.Config.{TransferQueueConfig}
use transfer_queue.Platform.Runtime.{Runtime, View, IsCodec, IsReliable}
use transfer_queue.Proto.{TrajectoryGroup}
use transfer_queue.DiskStorage.{DiskStorage, Env, lift}
use transfer_queue.BufferShard.{Core}
use transfer_queue.BufferShard.Groups.{GroupEntry, GroupMap, find, is_complete}
use transfer_queue.BufferShard.Entries.{Keyed, IsReordering}
use transfer_queue.BufferShard.Represents.{Matches, Matches-Kept, Matches-in_memory}
use transfer_queue.BufferShard.Appends.{now-Kept}
use transfer_queue.BufferShard.Manage.{complete_group, expire_entry, expire, check_group_timeouts}
use transfer_queue.BufferShard.Contract.{
  Groups, Step, check_timeouts, done, timed_out, Closes, kept, closed,
}
use transfer_queue.BufferShard.Filed.{Fit, find-All}
use transfer_queue.BufferShard.Sound.{Sound}

module _ {F : Type 0} (now timeout : ℕ) where
  -- The group of an instance after the check.
  abbrev pub after_check :
      Option (GroupEntry F) → Option (TrajectoryGroup F) → Option (TrajectoryGroup F)
  after_check none o = o
  after_check (some e) o =
      if is_complete e
      then o
      else if leb (e.created_time + timeout) now
      then complete_group o
      else o

  abbrev expire_option : Option (GroupEntry F) → Option (GroupEntry F)
  expire_option none = none
  expire_option (some e) = some (expire_entry now timeout e)

  find-expire_option :
      (q : Str) (l : GroupMap F) → find q (expire now timeout l) ≡ expire_option (find q l)
  unfolding find expire
  find-expire_option q [] = refl
  find-expire_option q ((k, e) ∷ l) = ground (arith, find-expire_option q l)

  expire-Keyed : (l : GroupMap F) → Keyed l → Keyed (expire now timeout l)
  unfolding expire
  expire-Keyed [] h = tt
  expire-Keyed ((k, e) ∷ l) h = (ground (arith, find-expire_option k l, h.0), expire-Keyed l h.1)

  -- An entry is as it was, or it was not complete and is now.
  data Aged (e : GroupEntry F) (o : Option (TrajectoryGroup F)) : Type 0 where
    unchanged : expire_entry now timeout e ≡ e → after_check (some e) o ≡ o → Aged e o
    expired :
        is_complete e ≡ false
        → expire_entry now timeout e ≡ record e { group_ptr = complete_group e.group_ptr }
        → after_check (some e) o ≡ complete_group o
        → Aged e o

  aged_lem : (e : GroupEntry F) (o : Option (TrajectoryGroup F)) → Aged e o
  unfolding expire_entry
  aged_lem e o = elim (Bool-cases (is_complete e)) [
    | inl full ↦ unchanged (ground (arith, full)) (ground (arith, full))
    | inr more ↦ elim (Bool-cases (leb (e.created_time + timeout) now)) [
      | inl old ↦ expired more (ground (arith, more, old)) (ground (arith, more, old))
      | inr young ↦ unchanged (ground (arith, more, young)) (ground (arith, more, young))
    ]
  ]

  complete-Closes : (o : Option (TrajectoryGroup F)) → Closes o (complete_group o)
  complete-Closes none = kept refl
  complete-Closes (some g) = closed g refl refl

  after_check-Closes :
      (x : Option (GroupEntry F)) (o : Option (TrajectoryGroup F)) → Closes o (after_check x o)
  after_check-Closes none o = kept refl
  after_check-Closes (some e) o = elim (aged_lem e o) [
    | unchanged h k ↦ kept k
    | expired m h k ↦ subst (Closes o) (sym k) (complete-Closes o)
  ]

module _ {W H F : Type 0} (rt : Runtime W H F) (v : View W H) where
  -- A group stays small enough when it is completed.
  abbrev pub ClosesFit : GroupMap F → Type 0
  ClosesFit l =
      All
        (λ x.
          (g : TrajectoryGroup F)
          → x.1.group_ptr ≡ some g
          → Fit rt v (record g { is_complete = true }))
        l

  complete-Matches :
      (d : DiskStorage) (env : Env W) (e : GroupEntry F) (o : Option (TrajectoryGroup F))
      → is_complete e ≡ false
      → Matches rt v d env (some e) o
      → Matches rt v d env
          (some (record e { group_ptr = complete_group e.group_ptr }))
          (complete_group o)
  unfolding is_complete
  complete-Matches d env e none more m = absurd m
  complete-Matches d env e (some g) more (inl m) = inl (ap complete_group m)
  complete-Matches d env e (some g) more (inr s) = absurd (ground (arith, more, s.pointer))

  expire-Matches :
      (now timeout : ℕ) (d : DiskStorage) (env : Env W) (x : Option (GroupEntry F))
      (o : Option (TrajectoryGroup F))
      → Matches rt v d env x o
      → Matches rt v d env (expire_option now timeout x) (after_check now timeout x o)
  expire-Matches now timeout d env none o m = m
  expire-Matches now timeout d env (some e) o m = elim (aged_lem now timeout e o) [
    | unchanged h k ↦
        subst (λ y. Matches rt v d env (some y) (after_check now timeout (some e) o)) (sym h)
          (subst (Matches rt v d env (some e)) (sym k) m)
    | expired more h k ↦
        subst (λ y. Matches rt v d env (some y) (after_check now timeout (some e) o)) (sym h)
          (subst (Matches rt v d env (some (record e { group_ptr = complete_group e.group_ptr })))
            (sym k) (complete-Matches d env e o more m))
  ]

  -- What holds of the groups before, and of those that are completed, holds of the groups after.
  checked_all :
      (P : TrajectoryGroup F → Type 0) (now timeout : ℕ) (d : DiskStorage) (env : Env W)
      (x : Option (GroupEntry F)) (o : Option (TrajectoryGroup F))
      → Matches rt v d env x o
      → ((g : TrajectoryGroup F) → o ≡ some g → P g)
      → ((e : GroupEntry F) (g : TrajectoryGroup F)
          → x ≡ some e
          → e.group_ptr ≡ some g
          → P (record g { is_complete = true }))
      → (g : TrajectoryGroup F) → after_check now timeout x o ≡ some g
      → P g
  unfolding is_complete
  checked_all P now timeout d env none o m old new g h = old g h
  checked_all P now timeout d env (some e) none m old new g h = absurd m
  checked_all P now timeout d env (some e) (some g') m old new g h =
      elim (aged_lem now timeout e (some g')) [
        | unchanged u k ↦ old g (sym k ∙ h)
        | expired more u k ↦ elim m [
          | inl p ↦ subst P (some_injective (sym k ∙ h)) (new e g' refl p)
          | inr s ↦ absurd (ground (arith, more, s.pointer))
        ]
      ]

module _ {W H F : Type 0} (rt : Runtime W H F) (v : View W H) (codec : IsCodec rt)
    (reliable : IsReliable rt v) (arrange : GroupMap F → GroupMap F)
    (reorders : IsReordering arrange) where
  pub record TimeoutDone (size : ℤ) (core : Core W F) (view : Groups F)
      (r : Result (Unit {0}) × Core W F) : Type 0 where
    pub after : Groups F
    pub returned : r.0 ≡ ok tt
    pub step : Step size view after check_timeouts done
    pub sound : Sound rt v r.1 after
    pub filter : r.1.shard.dedup_filter ≡ core.shard.dedup_filter
    pub total : r.1.shard.total_trajectories ≡ core.shard.total_trajectories
    pub consumed : r.1.shard.total_consumed ≡ core.shard.total_consumed

  -- On a machine where no operation fails, a check of the timeouts completes some of the groups and
  -- changes nothing else.
  pub check_group_timeouts-TimeoutDone :
      (size : ℤ) (cfg : TransferQueueConfig F) (core : Core W F) (view : Groups F)
      → Sound rt v core view
      → ClosesFit rt v core.shard.groups
      → TimeoutDone size core view (check_group_timeouts rt cfg core)
  unfolding check_group_timeouts
  check_group_timeouts-TimeoutDone size cfg core view s fit =
      let d = core.shard.disk_storage in
      let (t, told, quiet) = now-Kept rt v arrange reorders codec reliable d core.env in
      let timeout = cfg.group_timeout_seconds * 1000000000 in
      let env' = (lift rt.now core.env).1 in
      let l = core.shard.groups in
      let matches : (q : Str)
          → Matches rt v d env' (find q (expire t timeout l))
              (after_check t timeout (find q l) (view q)) =
        λ q.
          subst (λ o. Matches rt v d env' o (after_check t timeout (find q l) (view q)))
            (sym (find-expire_option t timeout q l))
            (expire-Matches rt v t timeout d env' (find q l) (view q) (
              Matches-Kept rt v d core.env env' (find q l) (view q) quiet
                (s.represents.matches q))) in
      rw (told) (record {
        after = λ q. after_check t timeout (find q l) (view q);
        returned = refl;
        step = timed_out (λ q. after_check-Closes t timeout (find q l) (view q));
        sound = record {
          initialized = s.initialized;
          valid = s.valid;
          represents = record {
            keyed = expire-Keyed t timeout l s.represents.keyed;
            matches = matches;
          };
          named = λ q.
              checked_all rt v (λ g. g.instance_id ≡ q) t timeout d core.env (find q l) (view q)
                (s.represents.matches q) (s.named q)
                (λ e g there p. s.named q g (
                  Matches-in_memory rt v d core.env e (view q) p (
                    subst (λ o. Matches rt v d core.env o (view q)) there
                      (s.represents.matches q))));
          fits = λ q.
              checked_all rt v (Fit rt v) t timeout d core.env (find q l) (view q)
                (s.represents.matches q) (s.fits q) (λ e g there. find-All _ q e l fit there g);
        };
        filter = refl;
        total = refl;
        consumed = refl;
      })
