-- ===== src/BufferShard/Ready.antt =====
-- `read_ready_groups` of server/buffer_shard.cc seen from outside: a list of groups, wherever they
-- are, from which the complete ones are taken.
use transfer_queue.Prelude.{
  ◌+◌, ◌≤◌, ◌≡◌, refl, sym, subst, true, false, Bool-cases, inl, inr, ◌⊎◌, List, [], ◌∷◌, ◌++◌,
  some, length, All, if◌then◌else◌, arith,
}
use mathlib.Core.List.{Perm, perm_middle}
use mathlib.Core.List.Perm
use transfer_queue.Prelude.Int.{pos}
use transfer_queue.Action.{Result, ok}
use transfer_queue.Platform.Runtime.{Runtime, View, IsCodec, IsReliable}
use transfer_queue.Proto.{TrajectoryGroup}
use transfer_queue.DiskStorage.{DiskStorage, Env, max_group_bytes}
use transfer_queue.DiskStorage.Loads.{AllLoadable, Distinct}
use transfer_queue.BufferShard.{Core}
use transfer_queue.BufferShard.Groups.{GroupEntry, GroupMap, is_complete, is_on_disk}
use transfer_queue.BufferShard.Entries.{Keyed}
use transfer_queue.BufferShard.Represents.{StoredAt}
use transfer_queue.BufferShard.Manage.{disk_offsets}
use transfer_queue.BufferShard.Consume.{ready_of, waiting}
use transfer_queue.BufferShard.Drain.{
  IsPlaced, count_trajectories-append, read_ready_groups-Drained,
}
use transfer_queue.BufferShard.Read.{read_ready_groups, count_trajectories}

module _ {F : Type 0} where
  -- The groups that are complete, and those that are not.
  unfoldable pub complete_of : List (TrajectoryGroup F) → List (TrajectoryGroup F)
  complete_of [] = []
  complete_of (g ∷ gs) = if g.is_complete then g ∷ complete_of gs else complete_of gs

  unfoldable pub incomplete_of : List (TrajectoryGroup F) → List (TrajectoryGroup F)
  incomplete_of [] = []
  incomplete_of (g ∷ gs) = if g.is_complete then incomplete_of gs else g ∷ incomplete_of gs

  -- The groups of the entries on disk.
  unfoldable disk_part : GroupMap F → List (TrajectoryGroup F) → List (TrajectoryGroup F)
  disk_part [] gs = []
  disk_part (x ∷ l) [] = []
  disk_part ((id, e) ∷ l) (g ∷ gs) = if is_on_disk e then g ∷ disk_part l gs else disk_part l gs

module _ {W H F : Type 0} (rt : Runtime W H F) (v : View W H) (d : DiskStorage) (env : Env W) where
  -- An entry and its group: in memory, or in a file that `load` accepts.
  abbrev pub Keeps : GroupEntry F → TrajectoryGroup F → Type 0
  Keeps e g =
      (e.group_ptr ≡ some g)
      ⊎ ((s : StoredAt rt v d env e g) × (length s.disk.body ≤ max_group_bytes))

  -- The map keeps these groups, in this order.
  abbrev pub Holds : GroupMap F → List (TrajectoryGroup F) → Type 0
  Holds [] [] = Unit {0}
  Holds ((id, e) ∷ l) (g ∷ gs) = Keeps e g × Holds l gs
  Holds _ _ = ⊥

  pub disk_entry :
      (e : GroupEntry F) (g : TrajectoryGroup F) → StoredAt rt v d env e g → is_on_disk e ≡ true
  unfolding is_on_disk
  disk_entry e g s = ground (arith, s.pointer, s.disk.nonzero)

  pub memory_entry :
      (e : GroupEntry F) (g : TrajectoryGroup F) → e.group_ptr ≡ some g → is_on_disk e ≡ false
  unfolding is_on_disk
  memory_entry e g h = ground (arith, h)

  Holds-IsPlaced :
      (l : GroupMap F) (gs : List (TrajectoryGroup F)) → Holds l gs → All (λ x. IsPlaced x.1) l
  Holds-IsPlaced [] gs h = tt
  Holds-IsPlaced (x ∷ l) [] h = absurd h
  Holds-IsPlaced ((id, e) ∷ l) (g ∷ gs) (inl m, h) = (inl (g, m), Holds-IsPlaced l gs h)
  Holds-IsPlaced ((id, e) ∷ l) (g ∷ gs) (inr s, h) =
      (inr (s.0.pointer, disk_entry e g s.0), Holds-IsPlaced l gs h)

  Holds-AllLoadable :
      (l : GroupMap F) (gs : List (TrajectoryGroup F))
      → Holds l gs
      → AllLoadable rt v d env.world (disk_offsets l) (disk_part l gs)
  unfolding disk_offsets disk_part
  Holds-AllLoadable [] gs h = tt
  Holds-AllLoadable (x ∷ l) [] h = absurd h
  Holds-AllLoadable ((id, e) ∷ l) (g ∷ gs) (inl m, h) =
      rw (memory_entry e g m) (Holds-AllLoadable l gs h)
  Holds-AllLoadable ((id, e) ∷ l) (g ∷ gs) (inr s, h) =
      rw (disk_entry e g s.0) (record { stored = s.0.disk; small = s.1 }, Holds-AllLoadable l gs h)

  -- Those in memory and those on disk together are the complete ones.
  Holds-Perm :
      (l : GroupMap F) (gs : List (TrajectoryGroup F))
      → Holds l gs
      → Perm (ready_of l ++ disk_part l gs) (complete_of gs)
  unfolding ready_of disk_part complete_of
  Holds-Perm [] [] h = Perm.nil
  Holds-Perm [] (g ∷ gs) h = absurd h
  Holds-Perm (x ∷ l) [] h = absurd h
  Holds-Perm ((id, e) ∷ l) (g ∷ gs) (inl m, h) = elim (Bool-cases g.is_complete) [
    | inl done ↦ rw (memory_entry e g m, m, done) (Perm.cons _ (Holds-Perm l gs h))
    | inr more ↦ rw (memory_entry e g m, m, more) (Holds-Perm l gs h)
  ]
  Holds-Perm ((id, e) ∷ l) (g ∷ gs) (inr s, h) =
      rw (disk_entry e g s.0, s.0.pointer, s.0.complete)
        (Perm.trans (perm_middle (ready_of l) (disk_part l gs)) (Perm.cons _ (Holds-Perm l gs h)))

  Holds-count :
      (l : GroupMap F) (gs : List (TrajectoryGroup F))
      → Holds l gs
      → count_trajectories (ready_of l) + count_trajectories (disk_part l gs)
        ≡ count_trajectories (complete_of gs)
  unfolding ready_of disk_part complete_of count_trajectories
  Holds-count [] [] h = refl
  Holds-count [] (g ∷ gs) h = absurd h
  Holds-count (x ∷ l) [] h = absurd h
  Holds-count ((id, e) ∷ l) (g ∷ gs) (inl m, h) = elim (Bool-cases g.is_complete) [
    | inl done ↦ rw (memory_entry e g m, m, done) (omega (arith, Holds-count l gs h))
    | inr more ↦ rw (memory_entry e g m, m, more) (Holds-count l gs h)
  ]
  Holds-count ((id, e) ∷ l) (g ∷ gs) (inr s, h) =
      rw (disk_entry e g s.0, s.0.pointer, s.0.complete) (omega (arith, Holds-count l gs h))

module _ {W H F : Type 0} (rt : Runtime W H F) (v : View W H) (d d' : DiskStorage)
    (env env' : Env W) where
  -- What is left is in memory, so it stays whatever happens to the files.
  waiting-Holds :
      (l : GroupMap F) (gs : List (TrajectoryGroup F))
      → Holds rt v d env l gs
      → Holds rt v d' env' (waiting l) (incomplete_of gs)
  unfolding waiting incomplete_of is_complete
  waiting-Holds [] [] h = tt
  waiting-Holds [] (g ∷ gs) h = absurd h
  waiting-Holds (x ∷ l) [] h = absurd h
  waiting-Holds ((id, e) ∷ l) (g ∷ gs) (inl m, h) = elim (Bool-cases g.is_complete) [
    | inl done ↦ rw (m, done) (waiting-Holds l gs h)
    | inr more ↦ rw (m, more) (inl refl, waiting-Holds l gs h)
  ]
  waiting-Holds ((id, e) ∷ l) (g ∷ gs) (inr s, h) =
      rw (s.0.pointer, s.0.complete) (waiting-Holds l gs h)

module _ {W H F : Type 0} (rt : Runtime W H F) (v : View W H) (codec : IsCodec rt)
    (reliable : IsReliable rt v) where
  -- The groups that a read took, and those that are left.
  pub record Taken (core : Core W F) (gs : List (TrajectoryGroup F))
      (r : Result (List (TrajectoryGroup F)) × Core W F) : Type 0 where
    pub groups : List (TrajectoryGroup F)
    pub returned : r.0 ≡ ok groups
    pub complete : Perm groups (complete_of gs)
    pub left : Holds rt v r.1.shard.disk_storage r.1.env r.1.shard.groups (incomplete_of gs)
    pub consumed :
        r.1.shard.total_consumed ≡ core.shard.total_consumed + count_trajectories (complete_of gs)

  -- On a machine where no file operation fails, a read without a limit from a shard that keeps some
  -- groups, each in memory or in a file of its own that is not above the limit of `load`, returns
  -- exactly the complete ones, each once, keeps exactly the others, and counts the trajectories
  -- that it returns.
  pub read_ready_groups-Taken :
      (core : Core W F) (gs : List (TrajectoryGroup F))
      → core.shard.disk_storage.initialized ≡ true
      → Keyed core.shard.groups
      → Distinct rt v core.shard.disk_storage (disk_offsets core.shard.groups)
      → Holds rt v core.shard.disk_storage core.env core.shard.groups gs
      → Taken core gs (read_ready_groups rt (pos 0) core)
  read_ready_groups-Taken core gs on keyed distinct h =
      let d = core.shard.disk_storage in
      let l = core.shard.groups in
      let after = (read_ready_groups rt (pos 0) core).1 in
      let drained = read_ready_groups-Drained rt v codec reliable core (disk_part l gs) (record {
        initialized = on;
        keyed = keyed;
        placed = Holds-IsPlaced rt v d core.env l gs h;
        distinct = distinct;
        loadable = Holds-AllLoadable rt v d core.env l gs h;
      }) in
      record {
        groups = ready_of l ++ disk_part l gs;
        returned = drained.returned;
        complete = Holds-Perm rt v d core.env l gs h;
        left =
            subst (λ m. Holds rt v after.shard.disk_storage after.env m (incomplete_of gs))
              (sym drained.groups)
              (waiting-Holds rt v d after.shard.disk_storage core.env after.env l gs h);
        consumed = omega (
          arith,
          drained.consumed,
          count_trajectories-append (ready_of l) (disk_part l gs),
          Holds-count rt v d core.env l gs h,
        );
      }
