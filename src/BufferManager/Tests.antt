-- ===== src/BufferManager/Tests.antt =====
-- The manager of server/buffer_manager.cc on a machine in memory.
use transfer_queue.Prelude.{
  ℕ, ◌≤◌, ◌+◌, ◌-◌, ◌^◌, ◌≡◌, refl, List, [], ◌∷◌, ℕ_discrete, length, ltb, min, arith, ◌<◌,
}
use transfer_queue.Prelude.Int.{pos}
use transfer_queue.Action.{Action, ok}
use transfer_queue.Proto.{Trajectory}
use transfer_queue.Platform.Sample.{Machine, machine, seen, machine-IsReliable}
use transfer_queue.BufferManager.Sample.{
  trajectory, id_i, id_jj, shard_with, entry, server, arrange,
}
use transfer_queue.BufferManager.{
  Server, Batches, start, shard_for, by_shard, write, read_ready_groups, wait_ready, get_status,
  has_ready_groups,
}
use transfer_queue.BufferManager.Routing.{batch_of, routed, OneEach, by_shard-routed}
use transfer_queue.BufferManager.Limit.{length-read_limited}
use transfer_queue.BufferShard.Limit.{Ensures}
use transfer_queue.BufferManager.Waiting.{IsSleep, Waited, pause, wait_ready-Waited}
use mathlib.Core.List.Permᴰ
use transfer_queue.BufferManager.Sharded.{IsSharded}
use transfer_queue.BufferManager.Reach.{Reachable-IsSharded, started, then, writing}
use transfer_queue.BufferManager.Totals.{sum_shards, get_status_lem}

abbrev incoming : List (Trajectory ℕ)
incoming = trajectory id_i ∷ trajectory id_jj ∷ trajectory id_i ∷ []

-- The batch of the second shard.
routed_to_second : routed machine 2 1 incoming ≡ trajectory id_i ∷ trajectory id_i ∷ []
unfolding routed shard_for ℕ_discrete
routed_to_second = refl

by_shard-routed_example :
    (batch_of 1 (by_shard machine 2 incoming []) ≡ routed machine 2 1 incoming)
    × OneEach (by_shard machine 2 incoming [])
by_shard-routed_example = by_shard-routed machine 2 1 incoming

-- A group on each of three shards, and a limit of two.
abbrev three : Server Machine ℕ
three = record server {
  manager = record server.manager {
    shards =
        shard_with ((id_i, entry) ∷ [])
        ∷ shard_with ((id_i, entry) ∷ [])
        ∷ shard_with ((id_i, entry) ∷ [])
        ∷ [];
  };
}

length-read_limited_example :
    Ensures (λ gs. length gs ≤ 2) (read_ready_groups machine (pos 2) three).0
length-read_limited_example = length-read_limited machine 1 three (omega arith) (omega arith)

-- A pause moves the clock by 10 ms, up to its last value.
abbrev sleep : Action (Server Machine ℕ) (Unit {0})
sleep s = (
  ok tt,
  record s {
    env = record s.env {
      world = record s.env.world { clock = min (s.env.world.clock + pause) (2 ^ 63 - 1) };
    };
  },
)

sleep-IsSleep : IsSleep machine seen sleep
sleep-IsSleep = record { returns = λ s. refl; lasts = λ s h. omega (arith, h) }

-- A server without groups waits for its deadline, 25 ms ahead.
abbrev idle : Server Machine ℕ
idle = record server { manager = record server.manager { shards = shard_with [] ∷ [] } }

wait_ready-Waited_example :
    Waited machine seen 25000041 (wait_ready machine sleep 4 (pos 25000041) idle)
wait_ready-Waited_example =
    wait_ready-Waited machine seen machine-IsReliable sleep sleep-IsSleep 3 25000041 idle
      (omega arith) (omega arith)

get_status_lem_example :
    ((get_status machine server).total_trajectories
      ≡ sum_shards (λ x. x.total_trajectories) server.manager.shards)
    × ((get_status machine server).total_consumed
        ≡ sum_shards (λ x. x.total_consumed) server.manager.shards)
    × ((get_status machine server).pending_groups + (get_status machine server).incomplete_groups
        ≡ sum_shards (λ x. length x.groups) server.manager.shards)
    × ((get_status machine server).pending_groups + (get_status machine server).incomplete_groups
        < 2 ^ 31)
    × (has_ready_groups machine server ≡ ltb 0 (get_status machine server).pending_groups)
unfolding sum_shards
get_status_lem_example = get_status_lem machine server (omega arith)

abbrev order : Batches ℕ → Batches ℕ
order l = l

-- A manager that has started and written a trajectory.
abbrev started_server : Server Machine ℕ
started_server = (start machine 2 server).1

Reachable-IsSharded_example :
    IsSharded machine 2 (write machine 2 arrange (trajectory id_jj) started_server).1.manager
Reachable-IsSharded_example =
    Reachable-IsSharded machine 2 arrange order (λ l. Permᴰ.refl l) (λ l. Permᴰ.refl l)
      (omega arith) (then (started server) (writing (trajectory id_jj) started_server))
