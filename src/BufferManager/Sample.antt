-- ===== src/BufferManager/Sample.antt =====
-- A manager of server/buffer_manager.cc with two shards on a machine in memory.
use transfer_queue.Prelude.{ℕ, refl, All, true, [], ◌∷◌, none, some, Str, length}
use transfer_queue.Prelude.Int.{pos}
use transfer_queue.Config.{default_config}
use transfer_queue.Proto.{Trajectory, TrajectoryGroup}
use transfer_queue.Platform.Fixed.{fixed}
use transfer_queue.Platform.Sample.{Machine}
use transfer_queue.DedupFilter
use transfer_queue.BufferShard.{BufferShard}
use transfer_queue.BufferShard.Groups.{GroupEntry, GroupMap, empty_entry}
use transfer_queue.BufferShard.Groups.{find}
use transfer_queue.BufferManager.{Server}
use transfer_queue.BufferManager.Reading.{Plain}

abbrev pub trajectory : Str → Trajectory ℕ
trajectory id = record {
  uid = b'u' ∷ id;
  instance_id = id;
  messages = [];
  reward = 1000;
  extra_info = [];
}

abbrev pub id_i : Str
id_i = b'i' ∷ []

abbrev pub id_jj : Str
id_jj = b'j' ∷ b'j' ∷ []

abbrev pub group : TrajectoryGroup ℕ
group = record {
  instance_id = id_i;
  trajectories = trajectory id_i ∷ [];
  group_size = pos 1;
  is_complete = true;
}

abbrev pub entry : GroupEntry ℕ
entry = record empty_entry { group_ptr = some group; created_time = 7 }

abbrev pub shard_with : GroupMap ℕ → BufferShard ℕ
shard_with groups = record {
  dedup_filter = DedupFilter.make fixed 2 10;
  disk_storage = record { bdev_name = b'd' ∷ []; initialized = true };
  groups = groups;
  total_trajectories = length groups;
  total_consumed = 0;
  disk_usage_bytes = pos 0;
}

-- An instance id of odd length goes to the second shard, one of even length to the first.
abbrev pub server : Server Machine ℕ
server = record {
  manager = record {
    config = default_config fixed;
    shards = shard_with [] ∷ shard_with ((id_i, entry) ∷ []) ∷ [];
  };
  env = record { counter = 0; world = record { files = λ q. none; clock = 41 } };
}

-- The order of a map.
abbrev pub arrange : GroupMap ℕ → GroupMap ℕ
arrange l = l

pub server-Plain : All Plain server.manager.shards
unfolding find
server-Plain = ((tt, tt), (((refl, tt), ((group, refl), tt)), tt))
