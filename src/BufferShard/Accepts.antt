-- ===== src/BufferShard/Accepts.antt =====
-- The three outcomes of `write` of server/buffer_shard.cc: a duplicate, a group on disk, an append.
use transfer_queue.Prelude.{
  suc, ◌+◌, ◌^◌, ◌<◌, ◌≡◌, ◌⊎◌, refl, ap, subst, ◌∙◌, Bool, true, false, inl, inr, Bool-cases, List,
  Option, some, Str, length, if◌then◌else◌,
}
use transfer_queue.Action.{Result, ok}
use transfer_queue.Config.{TransferQueueConfig}
use transfer_queue.Platform.Runtime.{Runtime, View, IsCodec, IsReliable}
use transfer_queue.Proto.{Trajectory, TrajectoryGroup}
use transfer_queue.DedupFilter
use transfer_queue.DedupFilter.{DedupFilter}
use transfer_queue.DedupFilter.Order.{member}
use transfer_queue.DedupFilter.Refines.{IsValid, held, lru_insert}
use transfer_queue.DedupFilter.History.{insert-refines}
use transfer_queue.DiskStorage.Batch.{Framed, IsSerializable}
use transfer_queue.BufferShard.{Core}
use transfer_queue.BufferShard.Groups.{GroupMap, find, is_on_disk, entry_or_new}
use transfer_queue.BufferShard.Entries.{IsReordering}
use transfer_queue.BufferShard.Represents.{Represents}
use transfer_queue.BufferShard.Appends.{with_trajectory, Appended, append_lem}
use transfer_queue.BufferShard.Write.{check_uid, append_if, append_unless, append, write}

-- The uid passes the duplicate check: the check is off, or the filter does not hold it.
abbrev pub IsNew : {F : Type 0} → TransferQueueConfig F → DedupFilter F → Str → Type 0
IsNew cfg f uid = (cfg.uid_dedup ≡ false) ⊎ (member uid (held f) ≡ false)

module _ {W H F : Type 0} (rt : Runtime W H F) where
  insert_known :
      (f : DedupFilter F) (uid : Str)
      → IsValid rt.hash f
      → member uid (held f) ≡ true
      → (DedupFilter.insert rt.hash f uid).1 ≡ false
  unfolding lru_insert
  insert_known f uid v m = ap (λ (r : List Str × Bool). r.1) (insert-refines rt.hash f uid v) ∙ rw m

  insert_new :
      (f : DedupFilter F) (uid : Str)
      → IsValid rt.hash f
      → member uid (held f) ≡ false
      → (DedupFilter.insert rt.hash f uid).1 ≡ true
  unfolding lru_insert
  insert_new f uid v m = ap (λ (r : List Str × Bool). r.1) (insert-refines rt.hash f uid v) ∙ rw m

  -- The filter after the check.
  abbrev pub checked : TransferQueueConfig F → Str → DedupFilter F → DedupFilter F
  checked cfg uid f = if cfg.uid_dedup then (DedupFilter.insert rt.hash f uid).0 else f

  check_uid-new :
      (cfg : TransferQueueConfig F) (uid : Str) (core : Core W F)
      → IsValid rt.hash core.shard.dedup_filter
      → IsNew cfg core.shard.dedup_filter uid
      → check_uid rt cfg uid core ≡ (
        ok true,
        record core {
          shard = record core.shard { dedup_filter = checked cfg uid core.shard.dedup_filter };
        },
      )
  unfolding check_uid
  check_uid-new cfg uid core v (inl off) = rw (off, check_uid)
  check_uid-new cfg uid core v (inr new) = elim (Bool-cases cfg.uid_dedup) [
    | inl on ↦ rw (on, check_uid, insert_new core.shard.dedup_filter uid v new)
    | inr off ↦ rw (off, check_uid)
  ]

  module _ (arrange : GroupMap F → GroupMap F) where
    -- A trajectory whose uid is among the recent ones is refused, and only the order of the
    -- filter's uids may change.
    pub write_duplicate :
        (cfg : TransferQueueConfig F) (t : Trajectory F) (core : Core W F)
        → cfg.uid_dedup ≡ true
        → IsValid rt.hash core.shard.dedup_filter
        → member t.uid (held core.shard.dedup_filter) ≡ true
        → write rt arrange cfg t core ≡ (
          ok false,
          record core {
            shard = record core.shard {
              dedup_filter = (DedupFilter.insert rt.hash core.shard.dedup_filter t.uid).0;
            };
          },
        )
    unfolding write check_uid append_if
    write_duplicate cfg t core on v m =
        rw (on, check_uid, insert_known core.shard.dedup_filter t.uid v m)

    -- A trajectory whose group was spilled to disk is lost: the call returns true, and neither the
    -- groups nor the counters change.
    pub write_dropped :
        (cfg : TransferQueueConfig F) (t : Trajectory F) (core : Core W F)
        → IsValid rt.hash core.shard.dedup_filter
        → IsNew cfg core.shard.dedup_filter t.uid
        → is_on_disk (entry_or_new (find t.instance_id core.shard.groups)) ≡ true
        → write rt arrange cfg t core ≡ (
          ok true,
          record core {
            shard = record core.shard { dedup_filter = checked cfg t.uid core.shard.dedup_filter };
          },
        )
    unfolding write append_if append append_unless
    write_dropped cfg t core v new there = rw (check_uid-new cfg t.uid core v new, there)

    module _ (v : View W H) (reorders : IsReordering arrange) (codec : IsCodec rt)
        (reliable : IsReliable rt v) where
      -- The filter does not matter to what an accepted write leaves.
      counted :
          {cfg : TransferQueueConfig F} {t : Trajectory F} {view : Str → Option (TrajectoryGroup F)}
          {f : DedupFilter F} {core core' : Core W F} {r : Result Bool × Core W F}
          → core'.shard.total_trajectories ≡ core.shard.total_trajectories
          → core'.shard.total_consumed ≡ core.shard.total_consumed
          → core'.shard.disk_storage ≡ core.shard.disk_storage
          → core'.env ≡ core.env
          → Appended rt v cfg t view f core' r
          → Appended rt v cfg t view f core r
      counted {core} {core'} {r} p q d e a = record {
        returned = a.returned;
        represents = a.represents;
        total = a.total ∙ ap suc p;
        consumed = a.consumed ∙ q;
        storage = a.storage ∙ d;
        filter = a.filter;
        framed =
            subst (λ x. Framed rt v x core.env r.1.env) d
              (subst (λ x. Framed rt v core'.shard.disk_storage x r.1.env) e a.framed);
      }

      -- On a machine where no file operation fails, with a storage that is initialised, a valid filter,
      -- a uid that is new, a group that is not on disk, groups that can all be serialised once the
      -- trajectory is appended, and a counter of ids with room below 2^63 for all of them, a trajectory
      -- is accepted: it goes to the end of the group of its instance, even if that group is complete
      -- already, every other group is as it was, it is counted once, and the filter is as the
      -- duplicate check leaves it, whatever is spilled on the way.
      pub write_accepted :
          (cfg : TransferQueueConfig F) (t : Trajectory F) (view : Str → Option (TrajectoryGroup F))
          (core : Core W F)
          → IsValid rt.hash core.shard.dedup_filter
          → IsNew cfg core.shard.dedup_filter t.uid
          → core.shard.disk_storage.initialized ≡ true
          → Represents rt v core view
          → is_on_disk (entry_or_new (find t.instance_id core.shard.groups)) ≡ false
          → ((q : Str) (g : TrajectoryGroup F)
              → with_trajectory cfg.group_size t view q ≡ some g
              → IsSerializable rt v core.shard.disk_storage g)
          → core.env.counter + suc (length core.shard.groups) < 2 ^ 63
          → Appended rt v cfg t view
              (checked cfg t.uid core.shard.dedup_filter)
              core
              (write rt arrange cfg t core)
      unfolding write append_if
      write_accepted cfg t view core fv new on r here ser few =
          rw (check_uid-new cfg t.uid core fv new) (
            counted refl refl refl refl (
              append_lem rt v arrange reorders codec reliable cfg t view
                (record core {
                  shard = record core.shard {
                    dedup_filter = checked cfg t.uid core.shard.dedup_filter;
                  };
                })
                on (record { keyed = r.keyed; matches = r.matches }) here ser few))
