-- ===== src/BufferShard/Sample.antt =====
-- Shards of server/buffer_shard.cc on a machine in memory.
use mathlib.Core.List.Permᴰ
use transfer_queue.Prelude.{
  ℕ, ◌≡◌, refl, subst, true, false, inl, inr, [], ◌∷◌, Option, none, some, ite, if_pos, if_neg, Str,
  Str-discrete, ℕ_discrete, length, All, arith,
}
use transfer_queue.Prelude.Int.{pos}
use transfer_queue.Config.{TransferQueueConfig, default_config}
use transfer_queue.Proto.{Trajectory, TrajectoryGroup}
use transfer_queue.Platform.Fixed.{fixed}
use transfer_queue.Platform.Codec.{serialize}
use transfer_queue.Platform.UnorderedMap
use transfer_queue.Platform.Sample.{Machine, machine, seen}
use transfer_queue.DedupFilter
use transfer_queue.DedupFilter.{DedupFilter}
use transfer_queue.DedupFilter.Bloom
use transfer_queue.DedupFilter.Order.{member, remove}
use transfer_queue.DedupFilter.Refines.{IsValid, held}
use transfer_queue.DedupFilter.History.{make-IsValid}
use transfer_queue.DiskStorage.{DiskStorage, Env, frame}
use transfer_queue.DiskStorage.Loads.{Distinct, IsLoadable}
use transfer_queue.BufferShard.Ready.{Holds}
use transfer_queue.DiskStorage.Batch.{IsSerializable}
use transfer_queue.BufferShard.{Core}
use transfer_queue.BufferShard.Groups.{
  GroupEntry, GroupMap, empty_entry, is_on_disk, find, add_trajectory, new_group, entry_or_new,
}
use transfer_queue.BufferShard.Entries.{Keyed, IsReordering}
use transfer_queue.BufferShard.Represents.{Represents}
use transfer_queue.BufferShard.Appends.{with_trajectory}
use transfer_queue.BufferShard.Manage.{disk_offsets}
use transfer_queue.BufferShard.Overlap.{IsSettled}

abbrev pub disk : DiskStorage
disk = record { bdev_name = b'd' ∷ []; initialized = true }

abbrev pub booted : Env Machine
booted = record { counter = 0; world = record { files = λ q. none; clock = 41 } }

abbrev pub id_i : Str
id_i = b'i' ∷ []

abbrev pub id_j : Str
id_j = b'j' ∷ []

abbrev pub trajectory : Trajectory ℕ
trajectory = record {
  uid = b'u' ∷ [];
  instance_id = id_i;
  messages = [];
  reward = 1000;
  extra_info = [];
}

abbrev pub group : TrajectoryGroup ℕ
group = record {
  instance_id = id_i;
  trajectories = trajectory ∷ [];
  group_size = pos 1;
  is_complete = true;
}

abbrev pub unfinished : TrajectoryGroup ℕ
unfinished = record {
  instance_id = id_j;
  trajectories = [];
  group_size = pos 2;
  is_complete = false;
}

-- Groups of one trajectory, in a buffer for less than one.
abbrev pub cfg : TransferQueueConfig ℕ
cfg = record (default_config fixed) { group_size = pos 1; max_memory_bytes = 1; uid_dedup = false }

abbrev pub dedup : TransferQueueConfig ℕ
dedup = record cfg { uid_dedup = true }

abbrev pub filter : DedupFilter ℕ
filter = DedupFilter.make fixed 2 10

pub filter-IsValid : IsValid length filter
filter-IsValid = (make-IsValid length fixed 2 10).0

abbrev pub with_groups : GroupMap ℕ → Core Machine ℕ
with_groups groups = record {
  shard = record {
    dedup_filter = filter;
    disk_storage = disk;
    groups = groups;
    total_trajectories = 0;
    total_consumed = 0;
    disk_usage_bytes = pos 0;
  };
  env = booted;
}

abbrev pub entry_i : GroupEntry ℕ
entry_i = record empty_entry { group_ptr = some group; created_time = 7 }

abbrev pub entry_j : GroupEntry ℕ
entry_j = record empty_entry { group_ptr = some unfinished; created_time = 9 }

abbrev pub two_groups : GroupMap ℕ
two_groups = (id_i, entry_i) ∷ (id_j, entry_j) ∷ []

-- The map keeps its order.
abbrev pub arrange : GroupMap ℕ → GroupMap ℕ
arrange l = l

pub arrange-IsReordering : IsReordering arrange
arrange-IsReordering l = Permᴰ.refl l

pub group-IsSerializable : IsSerializable machine seen disk group
unfolding serialize
group-IsSerializable = (1 ∷ 1 ∷ 0 ∷ 1 ∷ 1 ∷ b'i' ∷ 1 ∷ 1 ∷ b'u' ∷ 1 ∷ b'i' ∷ 1000 ∷ 0 ∷ [], refl)

-- The shard that holds the one group.
abbrev pub one_group : Core Machine ℕ
one_group = with_groups ((id_i, entry_i) ∷ [])

abbrev pub view_of_one : Str → Option (TrajectoryGroup ℕ)
view_of_one q = ite (Str-discrete q id_i) (some group) none

pub one_group-Represents : Represents machine seen one_group view_of_one
unfolding find
one_group-Represents = record {
  keyed = (refl, tt);
  matches = λ q. elim (Str-discrete q id_i) [
    | yes p ↦ rw (if_pos (Str-discrete q id_i) p, if_pos (Str-discrete q id_i) p) (inl refl)
    | no p ↦ rw (if_neg (Str-discrete q id_i) p, if_neg (Str-discrete q id_i) p) tt
  ];
}

pub one_group-IsSerializable :
    (q : Str) (g : TrajectoryGroup ℕ) → view_of_one q ≡ some g → IsSerializable machine seen disk g
one_group-IsSerializable q g e = elim (Str-discrete q id_i) [
  | yes p ↦
      let same : group ≡ g = ground (arith, p, e) in
      subst (IsSerializable machine seen disk) same group-IsSerializable
  | no p ↦ absurd (ground (arith, p, e))
]

-- The trajectory of the tests is written to an empty shard: its group is complete at once, and is
-- spilled, since it takes more than the buffer has.
abbrev pub empty_view : Str → Option (TrajectoryGroup ℕ)
empty_view q = none

abbrev pub no_groups : Core Machine ℕ
no_groups = with_groups []

pub no_groups-Represents : Represents machine seen no_groups empty_view
unfolding find
no_groups-Represents = record { keyed = tt; matches = λ q. tt }

pub written-IsSerializable :
    (q : Str) (g : TrajectoryGroup ℕ)
    → with_trajectory (pos 1) trajectory empty_view q ≡ some g
    → IsSerializable machine seen disk g
unfolding with_trajectory add_trajectory new_group
written-IsSerializable q g e = elim (Str-discrete q id_i) [
  | yes p ↦
      let same : group ≡ g = ground (arith, p, e) in
      subst (IsSerializable machine seen disk) same group-IsSerializable
  | no p ↦ absurd (ground (arith, p, e))
]

pub no_groups-here : is_on_disk (entry_or_new (find id_i no_groups.shard.groups)) ≡ false
unfolding find is_on_disk
no_groups-here = refl

-- A shard that has seen the uid.
abbrev pub seen_uid : Core Machine ℕ
seen_uid = record no_groups {
  shard = record no_groups.shard {
    dedup_filter = (DedupFilter.insert length filter trajectory.uid).0;
  };
}

pub uid_held : member trajectory.uid (held seen_uid.shard.dedup_filter) ≡ true
unfolding Bloom.bloom_hash Bloom.add_from Bloom.bloom_add Bloom.maybe_from
    Bloom.bloom_maybe_contains Bloom.add_all Bloom.bloom_rebuild Bloom.optimal_bit_count
    Bloom.optimal_hash_count DedupFilter.make DedupFilter.contains DedupFilter.insert
    DedupFilter.push_new DedupFilter.evict_oldest DedupFilter.evict_loop DedupFilter.drop_oldest
    DedupFilter.rebuild_if DedupFilter.splice_front DedupFilter.find_node DedupFilter.remove_node
    DedupFilter.split_last UnorderedMap.assign UnorderedMap.erase Str-discrete ℕ_discrete member
    remove
uid_held = refl

-- A shard whose one group is on disk.
abbrev pub spilled : Core Machine ℕ
spilled = with_groups ((id_i, record empty_entry { disk_offset = 42; cached_size = 1 }) ∷ [])

pub spilled-here : is_on_disk (entry_or_new (find id_i spilled.shard.groups)) ≡ true
unfolding find is_on_disk Str-discrete ℕ_discrete
spilled-here = refl

pub found_j : find id_j two_groups ≡ some entry_j
unfolding find Str-discrete ℕ_discrete
found_j = refl

pub two_groups-Keyed : Keyed two_groups
unfolding find Str-discrete ℕ_discrete
two_groups-Keyed = (refl, (refl, tt))

-- A shard with a group on disk, one that is not complete, and one in memory.
abbrev pub id_k : Str
id_k = b'k' ∷ []

abbrev pub group_bytes : Str
group_bytes = 1 ∷ 1 ∷ 0 ∷ 1 ∷ 1 ∷ b'i' ∷ 1 ∷ 1 ∷ b'u' ∷ 1 ∷ b'i' ∷ 1000 ∷ 0 ∷ []

abbrev pub disk_file : Str
disk_file = b'd' ∷ 47 ∷ 90 ∷ []

abbrev pub on_disk : GroupEntry ℕ
on_disk = record empty_entry { disk_offset = 42; cached_size = 1 }

abbrev pub group_k : TrajectoryGroup ℕ
group_k = record group { instance_id = id_k }

abbrev pub mixed_groups : GroupMap ℕ
mixed_groups =
    (id_i, on_disk) ∷ (id_j, entry_j) ∷ (id_k, record empty_entry { group_ptr = some group_k }) ∷ []

abbrev pub mixed : Core Machine ℕ
mixed = record (with_groups mixed_groups) {
  env = record {
    counter = 0;
    world = record {
      files = λ q. ite (Str-discrete q disk_file) (some (frame group_bytes)) none;
      clock = 100;
    };
  };
}

pub mixed-IsLoadable : IsLoadable machine seen disk mixed.env.world 42 group
unfolding serialize
mixed-IsLoadable = record {
  stored = record {
    body = group_bytes;
    serialized = refl;
    file = if_pos (Str-discrete disk_file disk_file) refl _ _;
    nonzero = omega arith;
  };
  small = omega arith;
}

pub mixed-Holds : Holds machine seen disk mixed.env mixed_groups (group ∷ unfinished ∷ group_k ∷ [])
mixed-Holds = (
  inr (
    record {
      pointer = refl;
      disk = mixed-IsLoadable.stored;
      given = omega arith;
      complete = refl;
      cached = refl;
    },
    mixed-IsLoadable.small,
  ),
  (inl refl, (inl refl, tt)),
)

pub mixed-Keyed : Keyed mixed_groups
unfolding find Str-discrete ℕ_discrete
mixed-Keyed = (refl, (refl, (refl, tt)))

pub mixed-Distinct : Distinct machine seen disk (disk_offsets mixed_groups)
unfolding disk_offsets is_on_disk
mixed-Distinct = (tt, tt)

pub mixed-AllSettled : All (λ x. IsSettled x.1) mixed_groups
unfolding is_on_disk
mixed-AllSettled =
    (inr (refl, refl), (inl (unfinished, refl, refl), (inl (group_k, refl, refl), tt)))
