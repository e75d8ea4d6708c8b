-- ===== src/BufferManager.antt =====
-- server/buffer_manager.h and buffer_manager.cc: the shards of all cores behind one interface.
pub mod Routing
pub mod Whole
pub mod Directories
pub mod Serves
pub mod Everywhere
pub mod ServesAll
pub mod Runs
pub mod Started
pub mod Reading
pub mod Waiting
pub mod Totals
pub mod Ownership
pub mod Emptying
pub mod Limit
pub mod Sharded
pub mod Reach
pub mod Sample
mod Tests
mod RunTests
use transfer_queue.Prelude.{
  ℕ, zero, suc, ◌+◌, ◌*◌, ◌%◌, Bool, true, false, not, ◌&&◌, ◌||◌, List, [], ◌∷◌, ◌++◌, Option,
  none, some, Str, length, take, ite, ℕ_discrete, if◌then◌else◌, ◌^◌,
}
use transfer_queue.Prelude.Int.{ℤ, pos, negsuc, ◌+ℤ◌, ltb_ℤ, to_int32}
use transfer_queue.Platform.{Double}
use transfer_queue.Platform.Runtime.{Runtime}
use transfer_queue.Action.{Action, Result, ok, err, no_instance, pure, throw, continue, ◌>>=◌, ◌>>◌}
use transfer_queue.Config.{TransferQueueConfig}
use transfer_queue.Proto.{Trajectory, TrajectoryGroup, BufferStatus, ConfigRequest}
use transfer_queue.DiskStorage.{Env}
use transfer_queue.BufferShard
use transfer_queue.BufferShard.{BufferShard, Core}
use transfer_queue.BufferShard.Groups.{GroupMap}
use transfer_queue.BufferShard.Write
use transfer_queue.BufferShard.Read
use transfer_queue.BufferShard.Manage

-- `config_` and `shards_`, one shard for each core that runs.
pub record BufferManager (F : Type 0) : Type 0 where
  pub config : TransferQueueConfig F
  pub shards : List (BufferShard F)

-- The manager with the process and the world around it.
pub record Server (W F : Type 0) : Type 0 where
  pub manager : BufferManager F
  pub env : Env W

abbrev pub Batches : Type 0 → Type 0
Batches F = List (ℕ × List (Trajectory F))

-- The results of operations that all ran: all values, or the first exception.
abbrev pub gather : {A : Type 0} → Result A → Result (List A) → Result (List A)
gather (err e) rs = err e
gather (ok a) (err e) = err e
gather (ok a) (ok as') = ok (a ∷ as')

module _ {W F : Type 0} where
  -- An operation on the shard of a core; the others are as they were.
  unfoldable pub at :
      {A : Type 0}
      → ℕ
      → Action (Core W F) A
      → List (BufferShard F)
      → Env W
      → Result A × List (BufferShard F) × Env W
  at sid m [] env = (err no_instance, [], env)
  at zero m (s ∷ l) env =
      let r = m (record { shard = s; env = env }) in (r.0, r.1.shard ∷ l, r.1.env)
  at (suc sid) m (s ∷ l) env = let r = at sid m l env in (r.0, s ∷ r.1, r.2)

  -- `shards_.invoke_on(sid, m)`.
  unfoldable pub invoke_on : {A : Type 0} → ℕ → Action (Core W F) A → Action (Server W F) A
  invoke_on sid m s =
      let r = at sid m s.manager.shards s.env in
      (r.0, record { manager = record s.manager { shards = r.1 }; env = r.2 })

  -- An operation on every shard: each runs, whatever the others return.
  unfoldable pub each :
      {A : Type 0}
      → Action (Core W F) A
      → List (BufferShard F)
      → Env W
      → Result (List A) × List (BufferShard F) × Env W
  each m [] env = (ok [], [], env)
  each m (s ∷ l) env =
      let r = m (record { shard = s; env = env }) in
      let rs = each m l r.1.env in (gather r.0 rs.0, r.1.shard ∷ rs.1, rs.2)

  -- `shards_.map(m)`.
  unfoldable pub map_shards : {A : Type 0} → Action (Core W F) A → Action (Server W F) (List A)
  map_shards m s =
      let r = each m s.manager.shards s.env in
      (r.0, record { manager = record s.manager { shards = r.1 }; env = r.2 })

  -- `shards_.invoke_on_all(m)`.
  abbrev pub invoke_on_all : {A : Type 0} → Action (Core W F) A → Action (Server W F) (Unit {0})
  invoke_on_all m = do _ ← map_shards m; pure tt

  abbrev pub cfg_of : Action (Server W F) (TransferQueueConfig F)
  cfg_of s = (ok s.manager.config, s)

-- The shards that `shards_.start` builds, from a core on.
unfoldable pub build_shards :
    {W H F : Type 0} → Runtime W H F → TransferQueueConfig F → ℕ → ℕ → List (BufferShard F)
build_shards rt cfg id zero = []
build_shards rt cfg id (suc n) = BufferShard.make rt cfg id ∷ build_shards rt cfg (suc id) n

-- The loop that puts each trajectory into the batch of its shard.
unfoldable pub push_to : {F : Type 0} → ℕ → Trajectory F → Batches F → Batches F
push_to sid t [] = (sid, t ∷ []) ∷ []
push_to sid t ((k, b) ∷ l) =
    ite (ℕ_discrete sid k) ((k, b ++ t ∷ []) ∷ l) ((k, b) ∷ push_to sid t l)

-- The loop that adds the counts of the shards.
unfoldable pub sum_written : List ℕ → ℕ
sum_written [] = 0
sum_written (n ∷ l) = n + sum_written l

-- `count` is `seastar::smp::count`.
module _ {W H F : Type 0} (rt : Runtime W H F) (count : ℕ) where
  unfoldable pub shard_for : Str → ℕ
  shard_for instance_id = rt.hash instance_id % count

  unfoldable pub start : Action (Server W F) (Unit {0})
  start s = invoke_on_all (BufferShard.start rt) (record s {
    manager = record s.manager { shards = build_shards rt s.manager.config 0 count };
  })

  -- `shards_.stop()` stops every shard and destroys them.
  unfoldable pub stop : Action (Server W F) (Unit {0})
  stop s =
      let r = invoke_on_all (BufferShard.stop rt) s in
      (r.0, record r.1 { manager = record r.1.manager { shards = [] } })

  unfoldable pub by_shard : List (Trajectory F) → Batches F → Batches F
  by_shard [] batches = batches
  by_shard (t ∷ ts) batches = by_shard ts (push_to (shard_for t.instance_id) t batches)

  unfoldable pub delete_instance : Str → Action (Server W F) (Unit {0})
  delete_instance instance_id =
      invoke_on (shard_for instance_id) (Manage.delete_instance rt instance_id)

  unfoldable pub reset : Action (Server W F) (Unit {0})
  reset = invoke_on_all (Manage.reset rt)

  module _ (arrange : GroupMap F → GroupMap F) where
    unfoldable pub write : Trajectory F → Action (Server W F) Bool
    write t = do cfg ← cfg_of; invoke_on (shard_for t.instance_id) (Write.write rt arrange cfg t)

    -- The batches, each at its shard: all of them run.
    unfoldable pub submit :
        TransferQueueConfig F → Batches F → Server W F → Result (List ℕ) × Server W F
    submit cfg [] s = (ok [], s)
    submit cfg ((sid, b) ∷ l) s =
        let r = invoke_on sid (Write.batch_write rt arrange cfg b) s in
        let rs = submit cfg l r.1 in (gather r.0 rs.0, rs.1)

    -- `order` is the order in which the map of the batches iterates.
    unfoldable pub batch_write :
        (Batches F → Batches F) → List (Trajectory F) → Action (Server W F) ℕ
    batch_write order ts = do
      cfg ← cfg_of
      results ← submit cfg (order (by_shard ts []))
      pure (sum_written results)

-- The loops that merge the results of the shards.
unfoldable pub merge_all : {A : Type 0} → List (List A) → List A
merge_all [] = []
merge_all (l ∷ ls) = l ++ merge_all ls

-- `if (max_groups > 0 && static_cast<int32_t>(merged.size()) > max_groups) merged.resize(max_groups)`.
unfoldable pub truncated : {A : Type 0} → ℤ → List A → List A
truncated (negsuc n) l = l
truncated (pos zero) l = l
truncated (pos (suc n)) l = if ltb_ℤ (pos (suc n)) (to_int32 (length l)) then take (suc n) l else l

-- `std::chrono::milliseconds`, in nanoseconds.
abbrev pub milliseconds : ℤ → ℤ
milliseconds (pos n) = pos (n * 1000000)
milliseconds (negsuc n) = negsuc (n * 1000000 + 999999)

unfoldable pub any_ready : {F : Type 0} → List (BufferShard F) → Bool
any_ready [] = false
any_ready (s ∷ l) = Read.has_ready_groups s || any_ready l

abbrev pub no_status : BufferStatus
no_status = record {
  total_trajectories = 0;
  total_consumed = 0;
  pending_groups = 0;
  incomplete_groups = 0;
  memory_usage_bytes = 0;
  disk_usage_bytes = pos 0;
}

-- The numbers of groups are the 32 bits of an `int32_t`.
abbrev pub add_status : BufferStatus → BufferStatus → BufferStatus
add_status a b = record {
  total_trajectories = a.total_trajectories + b.total_trajectories;
  total_consumed = a.total_consumed + b.total_consumed;
  pending_groups = (a.pending_groups + b.pending_groups) % 2 ^ 32;
  incomplete_groups = (a.incomplete_groups + b.incomplete_groups) % 2 ^ 32;
  memory_usage_bytes = a.memory_usage_bytes + b.memory_usage_bytes;
  disk_usage_bytes = a.disk_usage_bytes +ℤ b.disk_usage_bytes;
}

module _ {W H F : Type 0} (rt : Runtime W H F) where
  unfoldable pub read_ready_groups : ℤ → Action (Server W F) (List (TrajectoryGroup F))
  read_ready_groups max_groups = do
    per_shard_results ← map_shards (Read.read_ready_groups rt max_groups)
    pure (truncated max_groups (merge_all per_shard_results))

  unfoldable pub has_ready_groups : Server W F → Bool
  has_ready_groups s = any_ready s.manager.shards

  abbrev pub now_of : Action (Server W F) ℕ
  now_of s = let r = rt.now s.env.world in (r.0, record s { env = record s.env { world = r.1 } })

  -- The loop of `read_ready_groups_blocking`: true when it stops, false out of fuel. `sleep` is
  -- 10 ms in which the rest of the server may do anything.
  unfoldable pub wait_ready : Action (Server W F) (Unit {0}) → ℕ → ℤ → Action (Server W F) Bool
  wait_ready sleep zero deadline s = (ok false, s)
  wait_ready sleep (suc fuel) deadline s =
      if has_ready_groups s
      then (ok true, s)
      else continue (now_of s) (λ now s'.
        if not (ltb_ℤ (pos now) deadline)
        then (ok true, s')
        else continue (sleep s') (λ _. wait_ready sleep fuel deadline))

  unfoldable pub read_ready_groups_blocking :
      Action (Server W F) (Unit {0}) → ℕ → ℤ → ℤ → Action (Server W F) (List (TrajectoryGroup F))
  read_ready_groups_blocking sleep fuel max_groups timeout_ms = do
    now ← now_of
    _ ← wait_ready sleep fuel (pos now +ℤ milliseconds timeout_ms)
    read_ready_groups max_groups

  unfoldable pub reduce_status :
      TransferQueueConfig F → BufferStatus → List (BufferShard F) → BufferStatus
  reduce_status cfg acc [] = acc
  reduce_status cfg acc (s ∷ l) = reduce_status cfg (add_status acc (Manage.get_status rt cfg s)) l

  unfoldable pub get_status : Server W F → BufferStatus
  get_status s = reduce_status s.manager.config no_status s.manager.shards

-- A positive value, or what was there.
abbrev pub positive_or : ℕ → ℤ → ℕ
positive_or old (pos zero) = old
positive_or old (pos (suc n)) = suc n
positive_or old (negsuc n) = old

abbrev pub nonempty_or : Str → Str → Str
nonempty_or old [] = old
nonempty_or old (c ∷ s) = c ∷ s

abbrev pub positive_size : ℤ → ℤ → ℤ
positive_size old (pos zero) = old
positive_size old (pos (suc n)) = pos (suc n)
positive_size old (negsuc n) = old

-- The new configuration; every shard already points to it.
unfoldable pub update_config :
    {F : Type 0} → Double F → ConfigRequest F → BufferManager F → BufferManager F
update_config d req m = record m {
  config = record m.config {
    group_size = positive_size m.config.group_size req.group_size;
    task_type = nonempty_or m.config.task_type req.task_type;
    max_memory_bytes = positive_or m.config.max_memory_bytes req.max_memory_bytes;
    spill_to_disk_threshold =
        if d.lt (d.decimal 0 1) req.spill_to_disk_threshold
        then req.spill_to_disk_threshold
        else m.config.spill_to_disk_threshold;
    uid_dedup = req.uid_dedup;
    group_timeout_seconds = positive_or m.config.group_timeout_seconds req.group_timeout_seconds;
  };
}
