-- ===== src/BufferManager/Totals.antt =====
-- The status that server/buffer_manager.cc reduces from its shards.
use transfer_queue.Prelude.{ℕ, ◌+◌, ◌≡◌, ◌||◌, List, [], ◌∷◌, length, ltb, arith, ◌%◌, ◌^◌, ◌<◌}
use transfer_queue.Config.{TransferQueueConfig}
use transfer_queue.Proto.{BufferStatus}
use transfer_queue.Platform.Runtime.{Runtime}
use transfer_queue.BufferShard.{BufferShard}
use transfer_queue.BufferShard.Status.{counts_agree}
use transfer_queue.BufferShard.Read
use transfer_queue.BufferShard.Manage
use transfer_queue.BufferShard.Manage.{count_groups}
use transfer_queue.BufferManager.{
  Server, any_ready, reduce_status, add_status, get_status, no_status, has_ready_groups,
}

-- A sum over the shards.
unfoldable pub sum_shards : {F : Type 0} → (BufferShard F → ℕ) → List (BufferShard F) → ℕ
sum_shards f [] = 0
sum_shards f (s ∷ l) = f s + sum_shards f l

module _ {W H F : Type 0} (rt : Runtime W H F) where
  record Counted (acc : BufferStatus) (l : List (BufferShard F)) (r : BufferStatus) : Type 0 where
    trajectories :
        r.total_trajectories ≡ acc.total_trajectories + sum_shards (λ s. s.total_trajectories) l
    consumed : r.total_consumed ≡ acc.total_consumed + sum_shards (λ s. s.total_consumed) l
    groups :
        r.pending_groups + r.incomplete_groups
        ≡ acc.pending_groups + acc.incomplete_groups + sum_shards (λ s. length s.groups) l
    ready : ltb 0 r.pending_groups ≡ (ltb 0 acc.pending_groups || any_ready l)

  reduce_status-Counted :
      (cfg : TransferQueueConfig F) (acc : BufferStatus) (l : List (BufferShard F))
      → acc.pending_groups + acc.incomplete_groups + sum_shards (λ s. length s.groups) l < 2 ^ 32
      → Counted acc l (reduce_status rt cfg acc l)
  unfolding reduce_status sum_shards any_ready Manage.get_status Read.has_ready_groups
  reduce_status-Counted cfg acc [] few = record {
    trajectories = omega arith;
    consumed = omega arith;
    groups = omega arith;
    ready = ground arith;
  }
  reduce_status-Counted cfg acc (s ∷ l) few =
      let (all, ready, finished) = counts_agree s.groups (omega (arith, few)) in
      let st = Manage.get_status rt cfg s in
      let pending : (acc.pending_groups + st.pending_groups) % 2 ^ 32
          ≡ acc.pending_groups + st.pending_groups =
        omega (arith, all, few) in
      let incomplete : (acc.incomplete_groups + st.incomplete_groups) % 2 ^ 32
          ≡ acc.incomplete_groups + st.incomplete_groups =
        omega (arith, all, few) in
      let c =
        reduce_status-Counted cfg (add_status acc st) l
          (omega (arith, pending, incomplete, all, few)) in
      record {
        trajectories = omega (arith, c.trajectories);
        consumed = omega (arith, c.consumed);
        groups = omega (arith, c.groups, all, pending, incomplete);
        ready = ground (arith, c.ready, ready, pending);
      }

  -- If the shards hold fewer than 2^31 groups together, the status counts every group of every shard
  -- once, as pending or as incomplete, and neither `int32_t` overflows; its two totals are the sums of
  -- those of the shards; and `has_ready_groups` answers yes exactly if it reports a pending group.
  pub get_status_lem :
      (s : Server W F)
      → sum_shards (λ x. length x.groups) s.manager.shards < 2 ^ 31
      → ((get_status rt s).total_trajectories
          ≡ sum_shards (λ x. x.total_trajectories) s.manager.shards)
        × ((get_status rt s).total_consumed ≡ sum_shards (λ x. x.total_consumed) s.manager.shards)
        × ((get_status rt s).pending_groups + (get_status rt s).incomplete_groups
            ≡ sum_shards (λ x. length x.groups) s.manager.shards)
        × ((get_status rt s).pending_groups + (get_status rt s).incomplete_groups < 2 ^ 31)
        × (has_ready_groups rt s ≡ ltb 0 (get_status rt s).pending_groups)
  unfolding get_status has_ready_groups
  get_status_lem s few =
      let c =
        reduce_status-Counted s.manager.config no_status s.manager.shards (omega (arith, few)) in
      (
        omega (arith, c.trajectories),
        omega (arith, c.consumed),
        omega (arith, c.groups),
        omega (arith, c.groups, few),
        ground (arith, c.ready),
      )
