-- ===== src/BufferManager/Emptying.antt =====
-- `reset` of server/buffer_manager.cc and the status after it.
use transfer_queue.Prelude.{ℕ, ◌≡◌, refl, List, [], ◌∷◌, All, arith}
use transfer_queue.Prelude.Int.{pos, ◌+ℤ◌}
use transfer_queue.Action.{Action, Result, ok, err, continue, for_each}
use transfer_queue.Config.{TransferQueueConfig}
use transfer_queue.Proto.{BufferStatus}
use transfer_queue.Platform.Runtime.{Runtime}
use transfer_queue.DiskStorage
use transfer_queue.DiskStorage.{Env}
use transfer_queue.BufferShard.{BufferShard, Core, on_world}
use transfer_queue.BufferShard.Manage
use transfer_queue.BufferShard.Manage.{count_groups, disk_offsets, cleared_shard}
use transfer_queue.BufferManager.{
  Server, each, map_shards, add_status, no_status, reduce_status, get_status, reset,
}

-- A shard that holds nothing and counts from zero.
pub record Blank {F : Type 0} (s : BufferShard F) : Type 0 where
  pub groups : s.groups ≡ []
  pub total : s.total_trajectories ≡ 0
  pub consumed : s.total_consumed ≡ 0
  pub disk : s.disk_usage_bytes ≡ pos 0

-- A status that reports nothing but the memory of the filters.
pub record Zero (st : BufferStatus) : Type 0 where
  pub total : st.total_trajectories ≡ 0
  pub consumed : st.total_consumed ≡ 0
  pub pending : st.pending_groups ≡ 0
  pub incomplete : st.incomplete_groups ≡ 0
  pub disk : st.disk_usage_bytes ≡ pos 0

module _ {W F : Type 0} where
  -- What an operation makes true of every shard is true of all shards after it ran on each.
  pub each_all :
      {A : Type 0} (P : BufferShard F → Type 0) (m : Action (Core W F) A)
      → ((core : Core W F) → P (m core).1.shard)
      → (l : List (BufferShard F)) (env : Env W) → All P (each m l env).1
  unfolding each
  each_all P m h [] env = tt
  each_all P m h (s ∷ l) env = (h _, each_all P m h l _)

  record BlankCore (core : Core W F) : Type 0 where
    blank : Blank core.shard

  dropped :
      {A : Type 0} (r : Result A × Core W F)
      → BlankCore r.1
      → BlankCore (continue r (λ _ s. (ok tt, s))).1
  dropped (ok a, s) h = h
  dropped (err e, s) h = h

  dropped_server :
      {A : Type 0} (r : Result A × Server W F)
      → All Blank r.1.manager.shards
      → All Blank (continue r (λ _ s. (ok tt, s))).1.manager.shards
  dropped_server (ok a, s) h = h
  dropped_server (err e, s) h = h

module _ {W H F : Type 0} (rt : Runtime W H F) where
  reset-Blank : (core : Core W F) → BlankCore (Manage.reset rt core).1
  unfolding Manage.reset
  reset-Blank core =
      dropped
        (on_world
          (for_each (DiskStorage.remove rt core.shard.disk_storage)
            (disk_offsets core.shard.groups))
          (record core { shard = cleared_shard rt core.shard }))
        (record { blank = record { groups = refl; total = refl; consumed = refl; disk = refl } })

  reduce_status-Zero :
      (cfg : TransferQueueConfig F) (acc : BufferStatus) (l : List (BufferShard F))
      → Zero acc
      → All Blank l
      → Zero (reduce_status rt cfg acc l)
  unfolding reduce_status Manage.get_status count_groups ◌+ℤ◌
  reduce_status-Zero cfg acc [] z b = z
  reduce_status-Zero cfg acc (s ∷ l) z (b, bs) =
      reduce_status-Zero cfg (add_status acc (Manage.get_status rt cfg s)) l
        (record {
          total = omega (arith, z.total, b.total);
          consumed = omega (arith, z.consumed, b.consumed);
          pending = rw (b.groups) omega (arith, z.pending);
          incomplete = rw (b.groups) omega (arith, z.incomplete);
          disk = rw (z.disk, b.disk) refl;
        })
        bs

  -- After `reset`, whatever fails on the way, no shard holds a group and the status counts nothing.
  pub reset-Zero :
      (count : ℕ) (s : Server W F)
      → All Blank (reset rt count s).1.manager.shards × Zero (get_status rt (reset rt count s).1)
  unfolding reset map_shards get_status
  reset-Zero count s =
      let blank : All Blank (reset rt count s).1.manager.shards = dropped_server _ (
        each_all Blank (Manage.reset rt) (λ core. (reset-Blank core).blank) s.manager.shards
          s.env) in
      (
        blank,
        reduce_status-Zero _ no_status _
            (record {
              total = refl;
              consumed = refl;
              pending = refl;
              incomplete = refl;
              disk = refl;
            })
            blank,
      )
