-- ===== src/Metrics.antt =====
-- server/metrics.h and metrics.cc: four gauges for the shard of each core.
pub mod Sums
mod Tests
use transfer_queue.Prelude.{
  ℕ, suc, ◌+◌, ◌%◌, ◌≡◌, refl, List, [], ◌∷◌, map, Option, none, some, Str, length, arith,
}
use transfer_queue.Platform.{Double, size_mod}
use transfer_queue.Platform.Runtime.{Runtime}
use transfer_queue.Config.{TransferQueueConfig}
use transfer_queue.Proto.{BufferStatus}
use transfer_queue.BufferShard.{BufferShard, estimate_memory_usage}
use transfer_queue.BufferManager.{Server, get_status}
use transfer_queue.BufferManager.Routing.{nth}

-- "total_trajectories"
abbrev pub trajectories_name : Str
trajectories_name =
    b't' ∷ b'o' ∷ b't' ∷ b'a' ∷ b'l' ∷ b'_' ∷ b't' ∷ b'r' ∷ b'a' ∷ b'j' ∷ b'e' ∷ b'c' ∷ b't' ∷ b'o'
    ∷ b'r' ∷ b'i' ∷ b'e' ∷ b's' ∷ []

-- "total_consumed"
abbrev pub consumed_name : Str
consumed_name =
    b't' ∷ b'o' ∷ b't' ∷ b'a' ∷ b'l' ∷ b'_' ∷ b'c' ∷ b'o' ∷ b'n' ∷ b's' ∷ b'u' ∷ b'm' ∷ b'e' ∷ b'd'
    ∷ []

-- "active_groups"
abbrev pub groups_name : Str
groups_name =
    b'a' ∷ b'c' ∷ b't' ∷ b'i' ∷ b'v' ∷ b'e' ∷ b'_' ∷ b'g' ∷ b'r' ∷ b'o' ∷ b'u' ∷ b'p' ∷ b's' ∷ []

-- "memory_usage_bytes"
abbrev pub memory_name : Str
memory_name =
    b'm' ∷ b'e' ∷ b'm' ∷ b'o' ∷ b'r' ∷ b'y' ∷ b'_' ∷ b'u' ∷ b's' ∷ b'a' ∷ b'g' ∷ b'e' ∷ b'_' ∷ b'b'
    ∷ b'y' ∷ b't' ∷ b'e' ∷ b's' ∷ []

-- A gauge: its name, and what its function reads from the shard when it is scraped.
pub record Gauge (F : Type 0) : Type 0 where
  pub name : Str
  pub read : BufferShard F → ℕ

-- `static_cast<double>`.
abbrev pub sample_of : {F : Type 0} → Double F → Gauge F → BufferShard F → Str × F
sample_of d g shard = (g.name, d.of_uint (g.read shard))

abbrev pub samples :
    {F : Type 0} → Double F → List (Gauge F) → Option (BufferShard F) → List (Str × F)
samples d gauges none = []
samples d gauges (some shard) = map (λ g. sample_of d g shard) gauges

module _ {W H F : Type 0} (rt : Runtime W H F) where
  unfoldable pub register_metrics : TransferQueueConfig F → List (Gauge F)
  register_metrics cfg =
      record { name = trajectories_name; read = λ shard. shard.total_trajectories }
      ∷ record { name = consumed_name; read = λ shard. shard.total_consumed }
      ∷ record { name = groups_name; read = λ shard. length shard.groups }
      ∷ record { name = memory_name; read = estimate_memory_usage rt cfg }
      ∷ []

  -- What a core reports: the gauges of `shards_.local()`.
  unfoldable pub scrape : ℕ → Server W F → List (Str × F)
  scrape core s = samples rt.double (register_metrics s.manager.config) (nth core s.manager.shards)
