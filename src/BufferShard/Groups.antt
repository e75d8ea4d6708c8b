-- ===== src/BufferShard/Groups.antt =====
-- The map `groups_` of server/buffer_shard.h: its entries, and the operations of
-- `std::unordered_map` on them. The list is in the order in which the code iterates; a new key may
-- change that order in any way, which `arrange` stands for.
use transfer_queue.Prelude.{
  ℕ, Bool, true, false, ◌&&◌, not, List, [], ◌∷◌, ◌++◌, Option, none, some, is_some, ite, Str,
  Str-discrete, length, ltb, leb, if◌then◌else◌,
}
use transfer_queue.Prelude.Int.{ℤ, pos, negsuc}
use transfer_queue.Proto.{Trajectory, TrajectoryGroup}

-- A time is in nanoseconds.
pub record GroupEntry (F : Type 0) : Type 0 where
  pub group_ptr : Option (TrajectoryGroup F)
  pub disk_offset : ℕ
  pub created_time : ℕ
  pub cached_size : ℕ
  pub cached_bytes : ℕ

abbrev pub GroupMap : Type 0 → Type 0
GroupMap F = List (Str × GroupEntry F)

-- `trajectories_size() >= group_size()`: the target size is an `int32`, which may be negative.
abbrev pub is_full : ℕ → ℤ → Bool
is_full n (pos g) = leb g n
is_full n (negsuc g) = true

module _ {F : Type 0} where
  -- The entry that `groups_[id]` makes.
  abbrev pub empty_entry : GroupEntry F
  empty_entry = record {
    group_ptr = none;
    disk_offset = 0;
    created_time = 0;
    cached_size = 0;
    cached_bytes = 0;
  }

  unfoldable pub is_on_disk : GroupEntry F → Bool
  is_on_disk e = ltb 0 e.disk_offset && not (is_some e.group_ptr)

  abbrev pub group_is_complete : Option (TrajectoryGroup F) → Bool
  group_is_complete (some g) = g.is_complete
  group_is_complete none = true

  unfoldable pub is_complete : GroupEntry F → Bool
  is_complete e = group_is_complete e.group_ptr

  abbrev pub group_size_of : Option (TrajectoryGroup F) → ℕ
  group_size_of (some g) = length g.trajectories
  group_size_of none = 0

  unfoldable pub trajectories_size : GroupEntry F → ℕ
  trajectories_size e = group_size_of e.group_ptr

  -- `find`, `erase`, and `m[id] = e` of a key that is there.
  unfoldable pub find : Str → GroupMap F → Option (GroupEntry F)
  find id [] = none
  find id ((k, e) ∷ l) = ite (Str-discrete id k) (some e) (find id l)

  unfoldable pub erase : Str → GroupMap F → GroupMap F
  erase id [] = []
  erase id ((k, e) ∷ l) = ite (Str-discrete id k) l ((k, e) ∷ erase id l)

  unfoldable pub replace : Str → GroupEntry F → GroupMap F → GroupMap F
  replace id e [] = []
  replace id e ((k, x) ∷ l) = ite (Str-discrete id k) ((k, e) ∷ l) ((k, x) ∷ replace id e l)

  -- `m[id] = e` of any key.
  unfoldable pub store : (GroupMap F → GroupMap F) → Str → GroupEntry F → GroupMap F → GroupMap F
  store arrange id e l = if is_some (find id l) then replace id e l else arrange ((id, e) ∷ l)

  abbrev pub entry_or_new : Option (GroupEntry F) → GroupEntry F
  entry_or_new none = empty_entry
  entry_or_new (some e) = e

  unfoldable pub new_group : Str → ℤ → TrajectoryGroup F
  new_group id group_size = record {
    instance_id = id;
    trajectories = [];
    group_size = group_size;
    is_complete = false;
  }

  -- `add_trajectories`, then the check that the group is full.
  unfoldable pub add_trajectory : Trajectory F → TrajectoryGroup F → TrajectoryGroup F
  add_trajectory t g =
      let ts = g.trajectories ++ t ∷ [] in
      record g {
        trajectories = ts;
        is_complete = if is_full (length ts) g.group_size then true else g.is_complete;
      }
