-- ===== src/BufferShard/Interleaved.antt =====
-- A spill of server/buffer_shard.cc whose files are written while other calls change the shard.
use transfer_queue.Prelude.{
  ℕ, ◌+◌, ◌^◌, ◌<◌, ◌≤◌, ◌≡◌, ◌≢◌, refl, sym, subst, ◌∙◌, true, List, [], ◌∷◌, map, Option, All,
  some, if_neg, Str, Str-discrete, length, length-map, ◌==◌, arith,
}
use transfer_queue.Action.{ok}
use transfer_queue.Config.{TransferQueueConfig}
use transfer_queue.Platform.Runtime.{Runtime, View, IsCodec, IsReliable}
use transfer_queue.Proto.{TrajectoryGroup}
use transfer_queue.DiskStorage
use transfer_queue.DiskStorage.{DiskStorage, Env, file_name}
use transfer_queue.DiskStorage.Batch.{Saved, bound, IsSerializable, spill_batch-Batch}
use transfer_queue.BufferShard.{Core}
use transfer_queue.BufferShard.Groups.{GroupEntry, GroupMap, find, erase, store}
use transfer_queue.BufferShard.Entries.{Keyed, IsReordering, find-store, find-erase, erase-Keyed}
use transfer_queue.BufferShard.Represents.{Represents}
use transfer_queue.BufferShard.Transparent.{
  Absent, Chosen, commit_spill-Represents, Chosen-IsSerializable, choose_groups-Chosen,
}
use transfer_queue.BufferShard.Spill.{choose_groups, commit_chosen, sum_bytes}

module _ {F : Type 0} (arrange : GroupMap F → GroupMap F) where
  -- What other calls do to the map between the two phases, away from the groups that were chosen:
  -- they store an entry or erase one.
  pub data Others (cs : List (Str × TrajectoryGroup F)) : GroupMap F → GroupMap F → Type 0 where
    still : {l : GroupMap F} → Others cs l l
    stored :
        {l m : GroupMap F} (k : Str) (e : GroupEntry F)
        → Absent k cs
        → Others cs l m
        → Others cs l (store arrange k e m)
    erased : {l m : GroupMap F} (k : Str) → Absent k cs → Others cs l m → Others cs l (erase k m)

  Chosen-found :
      (k : Str) (l m : GroupMap F) (cs : List (Str × TrajectoryGroup F))
      → ((q : Str) → q ≢ k → find q m ≡ find q l)
      → Absent k cs
      → Chosen l cs
      → Chosen m cs
  Chosen-found k l m [] same a c = tt
  Chosen-found k l m ((j, g) ∷ cs) same a c = (
    record {
      entry = c.0.entry;
      found = same j a.0 ∙ c.0.found;
      pointer = c.0.pointer;
      complete = c.0.complete;
    },
    c.1,
    Chosen-found k l m cs same a.1 c.2,
  )

  module _ (reorders : IsReordering arrange) where
    -- The chosen groups stay where they are.
    Others-Chosen :
        {cs : List (Str × TrajectoryGroup F)} {l m : GroupMap F}
        → Others cs l m
        → Keyed l
        → Chosen l cs
        → Keyed m × Chosen m cs
    Others-Chosen still keyed c = (keyed, c)
    Others-Chosen {cs} (stored {m} k e a o) keyed c =
        let (keyed', c') = Others-Chosen o keyed c in
        let (still_keyed, lookup) = find-store arrange reorders k e m keyed' in
        (
          still_keyed,
          Chosen-found k m (store arrange k e m) cs
              (λ q h. lookup q ∙ if_neg (Str-discrete q k) h _ _) a c',
        )
    Others-Chosen {cs} (erased {m} k a o) keyed c =
        let (keyed', c') = Others-Chosen o keyed c in
        (
          erase-Keyed k m keyed',
          Chosen-found k m (erase k m) cs
              (λ q h. find-erase k q m keyed' ∙ if_neg (Str-discrete q k) h _ _) a c',
        )

module _ {W H F : Type 0} (rt : Runtime W H F) (v : View W H) (codec : IsCodec rt)
    (reliable : IsReliable rt v) (arrange : GroupMap F → GroupMap F)
    (reorders : IsReordering arrange) where
  -- The files of some ids are as they were; other files may have been removed or overwritten.
  pub record Untouched (d : DiskStorage) (ids : List ℕ) (env env' : Env W) : Type 0 where
    pub same :
        All
          (λ n. v.contents env'.world (file_name rt d n) ≡ v.contents env.world (file_name rt d n))
          ids
    pub grows : bound rt v d env ≤ bound rt v d env'

  Saved-Untouched :
      (d : DiskStorage) {env env' : Env W} (gs : List (TrajectoryGroup F)) (ids : List ℕ)
      → Untouched d ids env env'
      → Saved rt v d env gs ids
      → Saved rt v d env' gs ids
  Saved-Untouched d [] [] k s = tt
  Saved-Untouched d (g ∷ gs) (id ∷ ids) k s = (
    record {
      body = s.0.body;
      serialized = s.0.serialized;
      file = k.same.0 ∙ s.0.file;
      nonzero = s.0.nonzero;
    },
    omega (arith, s.1, k.grows),
    Saved-Untouched d gs ids (record { same = k.same.1; grows = k.grows }) s.2,
  )
  Saved-Untouched d [] (id ∷ ids) k s = s
  Saved-Untouched d (g ∷ gs) [] k s = s

  -- The second phase of a spill, whenever it comes: it succeeds and is not seen in the groups that
  -- the shard represents then.
  pub record Later (chosen : List (Str × TrajectoryGroup F)) (core : Core W F) (env : Env W)
      (ids : List ℕ) : Type 0 where
    pub commits :
        (later : Core W F) (view : Str → Option (TrajectoryGroup F))
        → Others arrange chosen core.shard.groups later.shard.groups
        → later.shard.disk_storage ≡ core.shard.disk_storage
        → Untouched core.shard.disk_storage ids env later.env
        → Represents rt v later view
        → ((commit_chosen rt chosen ids later).0 ≡ ok (sum_bytes rt chosen))
          × Represents rt v (commit_chosen rt chosen ids later).1 view

  commit_later :
      (chosen : List (Str × TrajectoryGroup F)) (ids : List ℕ) (core later : Core W F) (env : Env W)
      (view : Str → Option (TrajectoryGroup F))
      → length ids ≡ length chosen
      → Keyed core.shard.groups
      → Chosen core.shard.groups chosen
      → Saved rt v core.shard.disk_storage env (map (λ c. c.1) chosen) ids
      → Others arrange chosen core.shard.groups later.shard.groups
      → later.shard.disk_storage ≡ core.shard.disk_storage
      → Untouched core.shard.disk_storage ids env later.env
      → Represents rt v later view
      → ((commit_chosen rt chosen ids later).0 ≡ ok (sum_bytes rt chosen))
        × Represents rt v (commit_chosen rt chosen ids later).1 view
  unfolding commit_chosen
  commit_later chosen ids core later env view size keyed c saved others same kept r =
      let counted : (length chosen == length ids) ≡ true = ground (arith, size) in
      rw (counted) (
        refl,
        commit_spill-Represents rt v view chosen ids later.shard later.env
            (Others-Chosen arrange reorders others keyed c).1
            (subst (λ d. Saved rt v d later.env (map (λ x. x.1) chosen) ids) (sym same)
              (Saved-Untouched core.shard.disk_storage (map (λ x. x.1) chosen) ids kept saved))
            r,
      )

  -- On a machine where no file operation fails, with a storage that is initialised, and if every
  -- group of the shard can be serialised and the counter of ids has room below 2^63 for as many as
  -- the shard has groups, the files of the groups that `try_spill_groups` chooses are written. The
  -- second phase may come later, after other calls that keep the storage object, store or erase only
  -- entries of other instances, leave the files of the ids just given out as they are, do not lower
  -- the bound of the ids, and may write or remove any other file: if the shard then represents some
  -- groups, the second phase succeeds, and the shard represents the same groups after it.
  pub spill_batch-Later :
      (cfg : TransferQueueConfig F) (core : Core W F) (view : Str → Option (TrajectoryGroup F))
      → core.shard.disk_storage.initialized ≡ true
      → Represents rt v core view
      → ((q : Str) (g : TrajectoryGroup F)
          → view q ≡ some g
          → IsSerializable rt v core.shard.disk_storage g)
      → core.env.counter + length core.shard.groups < 2 ^ 63
      → let chosen = choose_groups rt cfg core.shard in
        let r =
          DiskStorage.spill_batch rt core.shard.disk_storage (map (λ c. c.1) chosen) core.env in
        (ids : List ℕ) × (r.0 ≡ ok ids) × Later chosen core r.1 ids
  spill_batch-Later cfg core view on r ser few =
      let d = core.shard.disk_storage in
      let chosen = choose_groups rt cfg core.shard in
      let (c, short) = choose_groups-Chosen rt v view codec reliable cfg core.shard r.keyed in
      let gs = map (λ (x : Str × TrajectoryGroup F). x.1) chosen in
      let size = length-map (λ (x : Str × TrajectoryGroup F). x.1) chosen in
      let (ids, b) =
        spill_batch-Batch rt v d codec reliable on gs core.env
          (Chosen-IsSerializable rt v view d core.env core.shard.groups chosen ser r.matches c)
          (omega (arith, size, short, few)) in
      (
        ids,
        b.returned,
        record {
          commits = λ later view' others same kept r'.
              commit_later chosen ids core later _ view' (b.size ∙ size) r.keyed c b.saved others
                same kept r';
        },
      )
