-- ===== src/BufferShard/Deletes.antt =====
-- What `delete_instance` and `reset` of server/buffer_shard.cc leave.
use transfer_queue.Prelude.{
  ◌≡◌, refl, Bool, true, false, [], Option, none, some, ite, Str, Str-discrete,
}
use transfer_queue.Prelude.Int.{pos}
use transfer_queue.Action.{Result, ok, err, continue}
use transfer_queue.Platform.Runtime.{Runtime, View}
use transfer_queue.DedupFilter.Refines.{IsValid, held}
use transfer_queue.DedupFilter.History.{clear-IsValid}
use transfer_queue.BufferShard.{Core}
use transfer_queue.BufferShard.Groups.{GroupEntry, GroupMap, find, is_on_disk}
use transfer_queue.BufferShard.Entries.{Keyed, find-erase, erase-Keyed}
use transfer_queue.BufferShard.Represents.{Represents}
use transfer_queue.BufferShard.Manage.{drop_entry, delete_found, delete_instance, reset}

module _ {W H F : Type 0} (rt : Runtime W H F) where
  -- The shard without an instance.
  pub record Deleted (id : Str) (core : Core W F) (r : Result (Unit {0}) × Core W F) : Type 0 where
    pub returned : r.0 ≡ ok tt
    pub keyed : Keyed r.1.shard.groups
    pub lookup :
        (q : Str)
        → find q r.1.shard.groups ≡ ite (Str-discrete q id) none (find q core.shard.groups)
    pub filter : r.1.shard.dedup_filter ≡ core.shard.dedup_filter
    pub total : r.1.shard.total_trajectories ≡ core.shard.total_trajectories
    pub consumed : r.1.shard.total_consumed ≡ core.shard.total_consumed

  absent_lem :
      (id q : Str) (l : GroupMap F)
      → find id l ≡ none
      → find q l ≡ ite (Str-discrete q id) none (find q l)
  absent_lem id q l h = elim (Str-discrete q id) as (λ d. find q l ≡ ite d none (find q l)) [
    | yes p ↦ rw p h
    | no p ↦ refl
  ]

  drop_entry-Deleted :
      (disk : Bool) (id : Str) (e : GroupEntry F) (core : Core W F)
      → Keyed core.shard.groups
      → Deleted id core (drop_entry rt disk id e core.shard core)
  unfolding drop_entry
  drop_entry-Deleted true id e core keyed = record {
    returned = refl;
    keyed = erase-Keyed id core.shard.groups keyed;
    lookup = λ q. find-erase id q core.shard.groups keyed;
    filter = refl;
    total = refl;
    consumed = refl;
  }
  drop_entry-Deleted false id e core keyed = record {
    returned = refl;
    keyed = erase-Keyed id core.shard.groups keyed;
    lookup = λ q. find-erase id q core.shard.groups keyed;
    filter = refl;
    total = refl;
    consumed = refl;
  }

  delete_found-Deleted :
      (id : Str) (o : Option (GroupEntry F)) (core : Core W F)
      → find id core.shard.groups ≡ o
      → Keyed core.shard.groups
      → Deleted id core (delete_found rt id core.shard o core)
  unfolding delete_found
  delete_found-Deleted id none core gone keyed = record {
    returned = refl;
    keyed = keyed;
    lookup = λ q. absent_lem id q core.shard.groups gone;
    filter = refl;
    total = refl;
    consumed = refl;
  }
  delete_found-Deleted id (some e) core there keyed =
      drop_entry-Deleted (is_on_disk e) id e core keyed

  -- `delete_instance` succeeds whatever becomes of the file of the group: the instance is gone, and
  -- every other instance, the filter and the totals are as they were.
  pub delete_instance-Deleted :
      (id : Str) (core : Core W F)
      → Keyed core.shard.groups
      → Deleted id core (delete_instance rt id core)
  unfolding delete_instance
  delete_instance-Deleted id core keyed =
      delete_found-Deleted id (find id core.shard.groups) core refl keyed

  -- The shard after a reset.
  pub record Emptied (v : View W H) (core core' : Core W F) : Type 0 where
    pub represents : Represents rt v core' (λ q. none)
    pub valid : IsValid rt.hash core'.shard.dedup_filter
    pub capacity : core'.shard.dedup_filter.max_size ≡ core.shard.dedup_filter.max_size
    pub forgotten : held core'.shard.dedup_filter ≡ []
    pub total : core'.shard.total_trajectories ≡ 0
    pub consumed : core'.shard.total_consumed ≡ 0
    pub disk : core'.shard.disk_usage_bytes ≡ pos 0
    pub storage : core'.shard.disk_storage ≡ core.shard.disk_storage

  after_lem :
      {A : Type 0} (v : View W H) (core : Core W F) (r : Result A × Core W F)
      → Emptied v core r.1
      → Emptied v core (continue r (λ _ s. (ok tt, s))).1
  after_lem v core (ok a, s) h = h
  after_lem v core (err e, s) h = h

  -- After `reset` of a shard with a valid filter, whether the files could be removed or not, there
  -- is no group, the filter is valid, has its size and has forgotten every uid, and the totals are
  -- zero.
  pub reset-Emptied :
      (v : View W H) (core : Core W F)
      → IsValid rt.hash core.shard.dedup_filter
      → Emptied v core (reset rt core).1
  unfolding reset find
  reset-Emptied v core valid =
      let (still, none_held, size) = clear-IsValid rt.hash core.shard.dedup_filter valid in
      after_lem v core _ (record {
        represents = record { keyed = tt; matches = λ q. tt };
        valid = still;
        capacity = size;
        forgotten = none_held;
        total = refl;
        consumed = refl;
        disk = refl;
        storage = refl;
      })
