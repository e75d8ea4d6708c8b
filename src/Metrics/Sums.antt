-- ===== src/Metrics/Sums.antt =====
-- The gauges of server/metrics.cc next to the status of the shard that they read.
use transfer_queue.Prelude.{ℕ, ◌+◌, ◌^◌, ◌<◌, ◌≡◌, refl, [], ◌∷◌, some, length, arith}
use transfer_queue.Platform.Runtime.{Runtime}
use transfer_queue.BufferShard.{BufferShard}
use transfer_queue.BufferShard.Manage
use transfer_queue.BufferShard.Manage.{count_groups}
use transfer_queue.BufferShard.Status.{counts_agree}
use transfer_queue.BufferManager.{Server}
use transfer_queue.BufferManager.Routing.{nth}
use transfer_queue.Metrics.{
  scrape, register_metrics, trajectories_name, consumed_name, groups_name, memory_name,
}

-- What a core that has a shard with fewer than 2^31 groups reports when it is scraped agrees with the
-- status of that shard: under "total_trajectories" the trajectories received, under "total_consumed"
-- those consumed, under "active_groups" the groups that are pending or incomplete, and under
-- "memory_usage_bytes" the memory, in this order and each converted to a double.
pub scrape-nth :
    {W H F : Type 0} (rt : Runtime W H F) (core : ℕ) (s : Server W F) (shard : BufferShard F)
    → nth core s.manager.shards ≡ some shard
    → length shard.groups < 2 ^ 31
    → let st = Manage.get_status rt s.manager.config shard in
      scrape rt core s
      ≡ (trajectories_name, rt.double.of_uint st.total_trajectories)
        ∷ (consumed_name, rt.double.of_uint st.total_consumed)
        ∷ (groups_name, rt.double.of_uint (st.pending_groups + st.incomplete_groups))
        ∷ (memory_name, rt.double.of_uint st.memory_usage_bytes)
        ∷ []
unfolding scrape register_metrics Manage.get_status
scrape-nth rt core s shard found few =
    let (all, ready, finished) = counts_agree shard.groups (omega (arith, few)) in
    rw (found, all) refl
