-- ===== src/BufferShard/Transparent.antt =====
-- `try_spill_groups` of server/buffer_shard.cc, seen from the groups that a shard represents.
use transfer_queue.Prelude.{
  ℕ, ◌+◌, ◌^◌, ◌≤◌, ◌<◌, ◌≡◌, ◌≢◌, refl, ap, subst, ◌∙◌, true, Bool-cases, Option-cases, inl, inr,
  List, [], ◌∷◌, map, Option, none, some, if_pos, if_neg, Str, Str-discrete, length, length-map,
  leb, All, ◌==◌, arith,
}
use transfer_queue.Prelude.Int.{pos, ◌+ℤ◌}
use transfer_queue.Action.{ok}
use transfer_queue.Config.{TransferQueueConfig}
use transfer_queue.Platform.Runtime.{Runtime, View, IsCodec, IsReliable}
use transfer_queue.Proto.{TrajectoryGroup}
use transfer_queue.DiskStorage
use transfer_queue.DiskStorage.{DiskStorage, Env}
use transfer_queue.DiskStorage.Batch.{
  OnDisk, Framed, Framed-refl, bound, Saved, IsSerializable, spill_batch-Batch,
}
use transfer_queue.BufferShard.{BufferShard, Core, bytes_in_memory, estimate_memory_usage}
use transfer_queue.BufferShard.Groups.{GroupEntry, GroupMap, find, replace, trajectories_size}
use transfer_queue.BufferShard.Entries.{Keyed, find-replace, replace-Keyed}
use transfer_queue.BufferShard.Represents.{
  Stands, Matches, Represents, Matches-Kept, Matches-in_memory,
}
use transfer_queue.BufferShard.Spill.{
  spillable_group, select_groups, choose_groups, spilled_entry, commit_one, commit_spill,
  commit_chosen, spill_chosen, try_spill_groups, sum_bytes, threshold,
}

-- The choice names a key of the map with its complete group in memory.
pub record Fits {F : Type 0} (l : GroupMap F) (k : Str) (g : TrajectoryGroup F) : Type 0 where
  pub entry : GroupEntry F
  pub found : find k l ≡ some entry
  pub pointer : entry.group_ptr ≡ some g
  pub complete : g.is_complete ≡ true

-- A key is not among those of the choices.
abbrev pub Absent : {F : Type 0} → Str → List (Str × TrajectoryGroup F) → Type 0
Absent k [] = Unit {0}
Absent k ((j, g) ∷ cs) = (j ≢ k) × Absent k cs

-- Each choice fits, and no key is chosen twice.
abbrev pub Chosen : {F : Type 0} → GroupMap F → List (Str × TrajectoryGroup F) → Type 0
Chosen l [] = Unit {0}
Chosen l ((k, g) ∷ cs) = Fits l k g × Absent k cs × Chosen l cs

module _ {F : Type 0} where
  Fits-cons :
      (k j : Str) (e : GroupEntry F) (l : GroupMap F) {g : TrajectoryGroup F}
      → find j l ≡ none
      → Fits l k g
      → (k ≢ j) × Fits ((j, e) ∷ l) k g
  unfolding find
  Fits-cons k j e l absent f =
      let differs : k ≢ j = λ same. absurd (ground (arith, f.found, ap (λ x. find x l) same)) in
      (
        differs,
        record {
          entry = f.entry;
          found = rw (if_neg _ differs) f.found;
          pointer = f.pointer;
          complete = f.complete;
        },
      )

  Chosen-cons :
      (j : Str) (e : GroupEntry F) (l : GroupMap F) (cs : List (Str × TrajectoryGroup F))
      → find j l ≡ none
      → Chosen l cs
      → Absent j cs × Chosen ((j, e) ∷ l) cs
  Chosen-cons j e l [] absent c = (tt, tt)
  Chosen-cons j e l ((k, g) ∷ cs) absent c =
      let (differs, fits) = Fits-cons k j e l absent c.0 in
      let (others, chosen) = Chosen-cons j e l cs absent c.2 in
      ((differs, others), (fits, c.1, chosen))

  Chosen-replace :
      (j : Str) (e : GroupEntry F) (l : GroupMap F) (cs : List (Str × TrajectoryGroup F))
      → Absent j cs
      → Chosen l cs
      → Chosen (replace j e l) cs
  Chosen-replace j e l [] a c = tt
  Chosen-replace j e l ((k, g) ∷ cs) a c = (
    record {
      entry = c.0.entry;
      found = find-replace j k e l ∙ if_neg (Str-discrete k j) a.0 _ _ ∙ c.0.found;
      pointer = c.0.pointer;
      complete = c.0.complete;
    },
    c.1,
    Chosen-replace j e l cs a.1 c.2,
  )

-- What a spill leaves alone, besides the groups.
pub record SameTotals {F : Type 0} (a b : BufferShard F) : Type 0 where
  pub dedup_filter : b.dedup_filter ≡ a.dedup_filter
  pub disk_storage : b.disk_storage ≡ a.disk_storage
  pub total_trajectories : b.total_trajectories ≡ a.total_trajectories
  pub total_consumed : b.total_consumed ≡ a.total_consumed

module _ {W H F : Type 0} (rt : Runtime W H F) where
  commit_one-SameTotals :
      (k : Str) (id : ℕ) (shard : BufferShard F) → SameTotals shard (commit_one rt k id shard)
  unfolding commit_one
  commit_one-SameTotals k id shard = ground arith

  commit_spill-SameTotals :
      (ks : List Str) (ids : List ℕ) (shard : BufferShard F)
      → SameTotals shard (commit_spill rt ks ids shard)
  unfolding commit_spill
  commit_spill-SameTotals [] ids shard = ground arith
  commit_spill-SameTotals (k ∷ ks) [] shard = ground arith
  commit_spill-SameTotals (k ∷ ks) (id ∷ ids) shard =
      let first = commit_one-SameTotals k id shard in
      let rest = commit_spill-SameTotals ks ids (commit_one rt k id shard) in
      record {
        dedup_filter = rest.dedup_filter ∙ first.dedup_filter;
        disk_storage = rest.disk_storage ∙ first.disk_storage;
        total_trajectories = rest.total_trajectories ∙ first.total_trajectories;
        total_consumed = rest.total_consumed ∙ first.total_consumed;
      }

  length-select_groups-le :
      (target n : ℕ) (l : GroupMap F) → length (select_groups rt target n l) ≤ length l
  unfolding select_groups
  length-select_groups-le target n [] = omega arith
  length-select_groups-le target n ((id, e) ∷ l) =
      elim (Option-cases (spillable_group e.group_ptr)) [
        | inl skipped ↦
            rw (skipped, select_groups) (omega (arith, length-select_groups-le target n l))
        | inr (g, taken) ↦ elim (Bool-cases (leb target (n + rt.byte_size g))) [
          | inl enough ↦ rw (taken, select_groups, enough) (omega arith)
          | inr more ↦
              rw (taken, select_groups, more)
                (omega (arith, length-select_groups-le target (n + rt.byte_size g) l))
        ]
      ]

  -- What the loop selects are groups of the map that are complete and in memory, each once.
  pub select_groups-Chosen :
      (target n : ℕ) (l : GroupMap F) → Keyed l → Chosen l (select_groups rt target n l)
  unfolding select_groups find
  select_groups-Chosen target n [] h = tt
  select_groups-Chosen target n ((id, e) ∷ l) h =
      elim (Option-cases (spillable_group e.group_ptr)) [
        | inl skipped ↦
            rw (skipped, select_groups)
              (Chosen-cons id e l _ h.0 (select_groups-Chosen target n l h.1)).1
        | inr (g, taken) ↦
            let first : Fits ((id, e) ∷ l) id g = record {
              entry = e;
              found = if_pos (Str-discrete id id) refl _ _;
              pointer = ground arith;
              complete = ground arith;
            } in
            let rest =
              Chosen-cons id e l _ h.0 (select_groups-Chosen target (n + rt.byte_size g) l h.1) in
            elim (Bool-cases (leb target (n + rt.byte_size g))) [
              | inl enough ↦ rw (taken, select_groups, enough) (first, tt, tt)
              | inr more ↦ rw (taken, select_groups, more) (first, rest.0, rest.1)
            ]
      ]

  module _ (v : View W H) (view : Str → Option (TrajectoryGroup F)) where
    -- The entry of a group that is on disk now stands for the same group.
    spilled_entry-Stands :
        (d : DiskStorage) (env : Env W) (id : ℕ) (e : GroupEntry F) (g : TrajectoryGroup F)
        → e.group_ptr ≡ some g
        → g.is_complete ≡ true
        → OnDisk rt v d env.world id g
        → id < bound rt v d env
        → Stands rt v d env (spilled_entry rt id e) g
    unfolding spilled_entry trajectories_size
    spilled_entry-Stands d env id e g p c o b =
        inr (record { pointer = refl; disk = o; given = b; complete = c; cached = rw p })

    -- One key of the second phase.
    replaced-Matches :
        (d : DiskStorage) (env : Env W) (l : GroupMap F) (k : Str) (id : ℕ) (g : TrajectoryGroup F)
        → (f : Fits l k g) → OnDisk rt v d env.world id g
        → id < bound rt v d env
        → ((q : Str) → Matches rt v d env (find q l) (view q))
        → (q : Str)
        → Matches rt v d env (find q (replace k (spilled_entry rt id f.entry) l)) (view q)
    replaced-Matches d env l k id g f o b m q = elim (Str-discrete q k) [
      | yes p ↦
          rw
            (
              p,
              find-replace k k (spilled_entry rt id f.entry) l,
              if_pos (Str-discrete k k) refl,
              f.found,
              Matches-in_memory rt v d env f.entry (view k) f.pointer
                  (subst (λ x. Matches rt v d env x (view k)) f.found (m k)),
            )
            (spilled_entry-Stands d env id f.entry g f.pointer f.complete o b)
      | no p ↦
          rw (find-replace k q (spilled_entry rt id f.entry) l, if_neg (Str-discrete q k) p) (m q)
    ]

    pub commit_spill-Represents :
        (cs : List (Str × TrajectoryGroup F)) (ids : List ℕ) (shard : BufferShard F) (env : Env W)
        → Chosen shard.groups cs
        → Saved rt v shard.disk_storage env (map (λ c. c.1) cs) ids
        → Represents rt v (record { shard = shard; env = env }) view
        → Represents rt v
            (record { shard = commit_spill rt (map (λ c. c.0) cs) ids shard; env = env })
            view
    unfolding commit_spill commit_one
    commit_spill-Represents [] ids shard env c s r = r
    commit_spill-Represents (x ∷ cs) [] shard env c s r = absurd s
    commit_spill-Represents ((k, g) ∷ cs) (id ∷ ids) shard env c s r =
        let e' = spilled_entry rt id c.0.entry in
        rw (c.0.found, commit_spill, commit_one)
          (commit_spill-Represents cs ids
            (record shard {
              groups = replace k e' shard.groups;
              disk_usage_bytes = shard.disk_usage_bytes +ℤ pos (bytes_in_memory rt c.0.entry);
            })
            env (Chosen-replace k e' shard.groups cs c.1 c.2) s.2
            (record {
              keyed = replace-Keyed k e' shard.groups r.keyed;
              matches =
                  replaced-Matches shard.disk_storage env shard.groups k id g c.0 s.0 s.1 r.matches;
            }))

    pub Chosen-IsSerializable :
        (d : DiskStorage) (env : Env W) (l : GroupMap F) (cs : List (Str × TrajectoryGroup F))
        → ((q : Str) (g : TrajectoryGroup F) → view q ≡ some g → IsSerializable rt v d g)
        → ((q : Str) → Matches rt v d env (find q l) (view q))
        → Chosen l cs
        → All (IsSerializable rt v d) (map (λ c. c.1) cs)
    Chosen-IsSerializable d env l [] ser m c = tt
    Chosen-IsSerializable d env l ((k, g) ∷ cs) ser m c = (
      ser k g (
          Matches-in_memory rt v d env c.0.entry (view k) c.0.pointer
            (subst (λ x. Matches rt v d env x (view k)) c.0.found (m k))),
      Chosen-IsSerializable d env l cs ser m c.2,
    )

    -- The shard represents the same groups, and its totals are as they were.
    pub record Invisible (core core' : Core W F) : Type 0 where
      pub represents : Represents rt v core' view
      pub same : SameTotals core.shard core'.shard
      pub framed : Framed rt v core.shard.disk_storage core.env core'.env

    module _ (codec : IsCodec rt) (reliable : IsReliable rt v) where
      -- What a spill does to the state: the same groups, filter and totals.
      spill_chosen-Invisible :
          (cs : List (Str × TrajectoryGroup F)) (core : Core W F)
          → core.shard.disk_storage.initialized ≡ true
          → Represents rt v core view
          → ((q : Str) (g : TrajectoryGroup F)
              → view q ≡ some g
              → IsSerializable rt v core.shard.disk_storage g)
          → core.env.counter + length cs < 2 ^ 63
          → Chosen core.shard.groups cs
          → ((spill_chosen rt core.shard cs core).0 ≡ ok (sum_bytes rt cs))
            × Invisible core (spill_chosen rt core.shard cs core).1
      unfolding spill_chosen commit_chosen sum_bytes
      spill_chosen-Invisible [] core on r ser few c = (
        refl,
        record {
          represents = r;
          same = ground arith;
          framed = Framed-refl rt v core.shard.disk_storage core.env;
        },
      )
      spill_chosen-Invisible (x ∷ cs) core on r ser few c =
          let d = core.shard.disk_storage in
          let gs = map (λ (y : Str × TrajectoryGroup F). y.1) (x ∷ cs) in
          let (ids, b) =
            spill_batch-Batch rt v d codec reliable on gs core.env
              (Chosen-IsSerializable d core.env core.shard.groups (x ∷ cs) ser r.matches c)
              (omega (arith, length-map (λ (y : Str × TrajectoryGroup F). y.1) (x ∷ cs))) in
          let env' = (DiskStorage.spill_batch rt d gs core.env).1 in
          let counted : (length (x ∷ cs) == length ids) ≡ true =
            ground (arith, b.size, length-map (λ (y : Str × TrajectoryGroup F). y.1) (x ∷ cs)) in
          rw (b.returned, counted)
            (
              refl,
              record {
                represents =
                    commit_spill-Represents (x ∷ cs) ids core.shard env' c b.saved (record {
                      keyed = r.keyed;
                      matches =
                          λ q. Matches-Kept rt v d core.env env' _ (view q) b.kept (r.matches q);
                    });
                same = commit_spill-SameTotals (map (λ y. y.0) (x ∷ cs)) ids core.shard;
                framed = b.framed;
              },
            )

      pub choose_groups-Chosen :
          (cfg : TransferQueueConfig F) (shard : BufferShard F)
          → Keyed shard.groups
          → Chosen shard.groups (choose_groups rt cfg shard)
            × (length (choose_groups rt cfg shard) ≤ length shard.groups)
      unfolding choose_groups
      choose_groups-Chosen cfg shard h =
          elim (Bool-cases (leb (estimate_memory_usage rt cfg shard) (threshold rt cfg))) [
            | inl low ↦ rw low (tt, omega arith)
            | inr high ↦
                rw high (
                  select_groups-Chosen _ 0 shard.groups h,
                  length-select_groups-le _ 0 shard.groups,
                )
          ]

      -- On a machine where no file operation fails, `try_spill_groups` succeeds, and the shard
      -- represents the same groups afterwards, whichever of them moved to disk.
      pub try_spill_groups-Invisible :
          (cfg : TransferQueueConfig F) (core : Core W F)
          → core.shard.disk_storage.initialized ≡ true
          → Represents rt v core view
          → ((q : Str) (g : TrajectoryGroup F)
              → view q ≡ some g
              → IsSerializable rt v core.shard.disk_storage g)
          → core.env.counter + length core.shard.groups < 2 ^ 63
          → ((try_spill_groups rt cfg core).0 ≡ ok (sum_bytes rt (choose_groups rt cfg core.shard)))
            × Invisible core (try_spill_groups rt cfg core).1
      unfolding try_spill_groups
      try_spill_groups-Invisible cfg core on r ser few =
          let (chosen, short) = choose_groups-Chosen cfg core.shard r.keyed in
          spill_chosen-Invisible (choose_groups rt cfg core.shard) core on r ser (omega arith)
            chosen
