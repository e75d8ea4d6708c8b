-- ===== src/BufferShard/Represents.antt =====
-- The abstract state of a shard of server/buffer_shard.cc: the group of each instance, wherever it
-- is kept.
use transfer_queue.Prelude.{
  ◌<◌, ◌≡◌, ◌⊎◌, sym, ◌∙◌, true, inl, inr, Option, none, some, Str, length, arith,
}
use native.Mathlib.Nat.{le_trans}
use transfer_queue.Platform.Runtime.{Runtime, View}
use transfer_queue.Proto.{TrajectoryGroup}
use transfer_queue.DiskStorage.{DiskStorage, Env}
use transfer_queue.DiskStorage.Batch.{OnDisk, bound, Kept, OnDisk-Kept}
use transfer_queue.BufferShard.{Core}
use transfer_queue.BufferShard.Groups.{GroupEntry, find}
use transfer_queue.BufferShard.Entries.{Keyed}

module _ {W H F : Type 0} (rt : Runtime W H F) (v : View W H) where
  -- The group of an entry on disk: complete, under an id that was given out.
  pub record StoredAt (d : DiskStorage) (env : Env W) (e : GroupEntry F) (g : TrajectoryGroup F)
      : Type 0 where
    pub pointer : e.group_ptr ≡ none
    pub disk : OnDisk rt v d env.world e.disk_offset g
    pub given : e.disk_offset < bound rt v d env
    pub complete : g.is_complete ≡ true
    pub cached : e.cached_size ≡ length g.trajectories

  -- The group of an entry: in memory, or on disk.
  abbrev pub Stands : DiskStorage → Env W → GroupEntry F → TrajectoryGroup F → Type 0
  Stands d env e g = (e.group_ptr ≡ some g) ⊎ StoredAt d env e g

  abbrev pub Matches :
      DiskStorage → Env W → Option (GroupEntry F) → Option (TrajectoryGroup F) → Type 0
  Matches d env none none = Unit {0}
  Matches d env (some e) (some g) = Stands d env e g
  Matches d env _ _ = ⊥

  -- The shard represents the map that sends each instance id to its group.
  pub record Represents (core : Core W F) (view : Str → Option (TrajectoryGroup F)) : Type 0 where
    pub keyed : Keyed core.shard.groups
    pub matches :
        (q : Str) → Matches core.shard.disk_storage core.env (find q core.shard.groups) (view q)

  -- What the disk keeps stays represented.
  pub Matches-Kept :
      (d : DiskStorage) (env env' : Env W) (o : Option (GroupEntry F))
      (g : Option (TrajectoryGroup F))
      → Kept rt v d env env'
      → Matches d env o g
      → Matches d env' o g
  Matches-Kept d env env' none none k m = tt
  Matches-Kept d env env' none (some g) k m = m
  Matches-Kept d env env' (some e) none k m = m
  Matches-Kept d env env' (some e) (some g) k (inl m) = inl m
  Matches-Kept d env env' (some e) (some g) k (inr m) = inr (record {
    pointer = m.pointer;
    disk = OnDisk-Kept rt v d k m.given m.disk;
    given = le_trans m.given k.grows;
    complete = m.complete;
    cached = m.cached;
  })

  -- A group in memory is the one represented.
  pub Matches-in_memory :
      (d : DiskStorage) (env : Env W) (e : GroupEntry F) (o : Option (TrajectoryGroup F))
      {g : TrajectoryGroup F}
      → e.group_ptr ≡ some g
      → Matches d env (some e) o
      → o ≡ some g
  Matches-in_memory d env e none h m = absurd m
  Matches-in_memory d env e (some g') h (inl m) = sym m ∙ h
  Matches-in_memory d env e (some g') h (inr m) = absurd (ground (arith, m.pointer))
