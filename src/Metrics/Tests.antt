-- ===== src/Metrics/Tests.antt =====
-- The gauges of server/metrics.cc on a server with two shards.
use transfer_queue.Prelude.{◌+◌, ◌≡◌, refl, [], ◌∷◌, arith, ℕ}
use transfer_queue.Platform.Sample.{machine}
use transfer_queue.BufferShard.{BufferShard}
use transfer_queue.BufferShard.Manage.{get_status}
use transfer_queue.BufferManager.Sample.{server, shard_with, id_i, entry}
use transfer_queue.Metrics.{scrape, trajectories_name, consumed_name, groups_name, memory_name}
use transfer_queue.Metrics.Sums.{scrape-nth}

abbrev shard : BufferShard ℕ
shard = shard_with ((id_i, entry) ∷ [])

scrape-nth_example :
    let st = get_status machine server.manager.config shard in
    scrape machine 1 server
    ≡ (trajectories_name, machine.double.of_uint st.total_trajectories)
      ∷ (consumed_name, machine.double.of_uint st.total_consumed)
      ∷ (groups_name, machine.double.of_uint (st.pending_groups + st.incomplete_groups))
      ∷ (memory_name, machine.double.of_uint st.memory_usage_bytes)
      ∷ []
scrape-nth_example = scrape-nth machine 1 server shard refl (omega arith)
