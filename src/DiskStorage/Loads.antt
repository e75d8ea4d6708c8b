-- ===== src/DiskStorage/Loads.antt =====
-- `load_batch` of server/disk_storage.cc, and the removal of the files of a batch.
use transfer_queue.Prelude.{
  ℕ, ◌≤◌, ◌≡◌, ◌≢◌, refl, sym, ◌∙◌, true, false, List, [], ◌∷◌, none, some, Str, length, All, ltb,
  arith,
}
use transfer_queue.Action.{Result, ok, for_each}
use transfer_queue.Platform.Runtime.{Runtime, View, Quiet, IsCodec, IsReliable}
use transfer_queue.Proto.{TrajectoryGroup}
use transfer_queue.DiskStorage.{
  DiskStorage, frame, load, load_batch, remove, file_name, max_group_bytes,
}
use transfer_queue.DiskStorage.Batch.{OnDisk}
use transfer_queue.DiskStorage.RoundTrip.{
  load_lem, loaded, file_name-injective, Quiet-refl, Quiet-trans,
}

module _ {W H F : Type 0} (rt : Runtime W H F) (v : View W H) (d : DiskStorage) where
  -- A file that holds a group that `load` accepts.
  pub record IsLoadable (w : W) (id : ℕ) (g : TrajectoryGroup F) : Type 0 where
    pub stored : OnDisk rt v d w id g
    pub small : length stored.body ≤ max_group_bytes

  abbrev pub AllLoadable : W → List ℕ → List (TrajectoryGroup F) → Type 0
  AllLoadable w [] [] = Unit {0}
  AllLoadable w (id ∷ ids) (g ∷ gs) = IsLoadable w id g × AllLoadable w ids gs
  AllLoadable w _ _ = ⊥

  -- No id occurs twice.
  abbrev pub Distinct : List ℕ → Type 0
  Distinct [] = Unit {0}
  Distinct (id ∷ ids) = All (λ k. k ≢ id) ids × Distinct ids

  IsLoadable-Quiet :
      {w w' : W} {id : ℕ} {g : TrajectoryGroup F}
      → Quiet v w w'
      → IsLoadable w id g
      → IsLoadable w' id g
  IsLoadable-Quiet {id} q p = record {
    stored = record {
      body = p.stored.body;
      serialized = p.stored.serialized;
      file = q.same (file_name rt d id) ∙ p.stored.file;
      nonzero = p.stored.nonzero;
    };
    small = p.small;
  }

  pub AllLoadable-Quiet :
      {w w' : W} (ids : List ℕ) (gs : List (TrajectoryGroup F))
      → Quiet v w w'
      → AllLoadable w ids gs
      → AllLoadable w' ids gs
  AllLoadable-Quiet [] [] q p = tt
  AllLoadable-Quiet (id ∷ ids) (g ∷ gs) q p =
      (IsLoadable-Quiet q p.0, AllLoadable-Quiet ids gs q p.1)
  AllLoadable-Quiet [] (g ∷ gs) q p = p
  AllLoadable-Quiet (id ∷ ids) [] q p = p

  abbrev pub Exists : W → ℕ → Type 0
  Exists w id = (s : Str) × (v.contents w (file_name rt d id) ≡ some s)

  abbrev pub Misses : Str → List ℕ → Type 0
  Misses q ids = All (λ id. q ≢ file_name rt d id) ids

  pub Misses-outside : (q : Str) (ids : List ℕ) → ((n : ℕ) → q ≢ file_name rt d n) → Misses q ids
  Misses-outside q [] h = tt
  Misses-outside q (id ∷ ids) h = (h id, Misses-outside q ids h)

  module _ (codec : IsCodec rt) (reliable : IsReliable rt v) (on : d.initialized ≡ true) where
    pub load-IsLoadable :
        (id : ℕ) (g : TrajectoryGroup F) (w : W)
        → IsLoadable w id g
        → ((load rt d id w).0 ≡ ok g) × Quiet v w (load rt d id w).1
    unfolding loaded
    load-IsLoadable id g w p =
        let s = p.stored.body in
        let (r, q) =
          load_lem rt v reliable d id s g w on (codec.limit g s p.stored.serialized)
            (codec.parse-serialize g s p.stored.serialized) p.stored.file in
        let fits : ltb max_group_bytes (length s) ≡ false = ground (arith, p.small) in
        (r ∙ rw (fits) refl, q)

    -- On a machine where no file operation fails, the files of a batch are loaded in order, and no
    -- file changes.
    pub load_batch_lem :
        (ids : List ℕ) (gs : List (TrajectoryGroup F)) (w : W)
        → AllLoadable w ids gs
        → ((load_batch rt d ids w).0 ≡ ok gs) × Quiet v w (load_batch rt d ids w).1
    unfolding load_batch for_each
    load_batch_lem [] [] w p = (refl, Quiet-refl v w)
    load_batch_lem (id ∷ ids) (g ∷ gs) w p =
        let (r, q) = load-IsLoadable id g w p.0 in
        let w₁ = (load rt d id w).1 in
        let (rs, qs) = load_batch_lem ids gs w₁ (AllLoadable-Quiet ids gs q p.1) in
        rw (r, rs) (refl, Quiet-trans v q qs)
    load_batch_lem [] (g ∷ gs) w p = absurd p
    load_batch_lem (id ∷ ids) [] w p = absurd p

    -- The files of a batch are gone, the others are as they were.
    pub record Removed (ids : List ℕ) (w : W) (r : Result (List (Unit {0})) × W) : Type 0 where
      pub units : List (Unit {0})
      pub returned : r.0 ≡ ok units
      pub gone : All (λ id. v.contents r.1 (file_name rt d id) ≡ none) ids
      pub same : (q : Str) → Misses q ids → v.contents r.1 q ≡ v.contents w q
      pub later : v.time w ≤ v.time r.1

    no_clash : (id : ℕ) (ids : List ℕ) → All (λ k. k ≢ id) ids → Misses (file_name rt d id) ids
    no_clash id [] h = tt
    no_clash id (k ∷ ids) h =
        (λ e. h.0 (file_name-injective rt v reliable d k id codec (sym e)), no_clash id ids h.1)

    still_there :
        (id : ℕ) (ids : List ℕ) (w w' : W)
        → ((q : Str) → q ≢ file_name rt d id → v.contents w' q ≡ v.contents w q)
        → All (λ k. k ≢ id) ids
        → All (Exists w) ids
        → All (Exists w') ids
    still_there id [] w w' same h p = tt
    still_there id (k ∷ ids) w w' same h p = (
      (
        p.0.0,
        same (file_name rt d k) (λ e. h.0 (file_name-injective rt v reliable d k id codec e))
            ∙ p.0.1,
      ),
      still_there id ids w w' same h.1 p.1,
    )

    remove_lem : (id : ℕ) (w : W) → remove rt d id w ≡ rt.remove_file (file_name rt d id) w
    unfolding remove
    remove_lem id w = rw (on) refl

    -- On a machine where no file operation fails, removing the files of distinct ids removes each of
    -- them and no other file.
    pub remove_batch_lem :
        (ids : List ℕ) (w : W)
        → Distinct ids
        → All (Exists w) ids
        → Removed ids w (for_each (remove rt d) ids w)
    unfolding for_each
    remove_batch_lem [] w h p = record {
      units = [];
      returned = refl;
      gone = tt;
      same = λ q m. refl;
      later = omega arith;
    }
    remove_batch_lem (id ∷ ids) w h p =
        let (s, there) = p.0 in
        let (done, wrote) = reliable.remove_file_lem (file_name rt d id) s w there in
        let w₁ = (rt.remove_file (file_name rt d id) w).1 in
        let rest = remove_batch_lem ids w₁ h.1 (still_there id ids w w₁ wrote.same h.0 p.1) in
        rw (remove_lem id w, done, rest.returned)
          (record {
            units = tt ∷ rest.units;
            returned = refl;
            gone = (rest.same (file_name rt d id) (no_clash id ids h.0) ∙ wrote.there, rest.gone);
            same = λ q m. rest.same q m.1 ∙ wrote.same q m.0;
            later = omega (arith, rest.later, wrote.later);
          })

    pub AllLoadable-Exists :
        (ids : List ℕ) (gs : List (TrajectoryGroup F)) (w : W)
        → AllLoadable w ids gs
        → All (Exists w) ids
    AllLoadable-Exists [] gs w p = tt
    AllLoadable-Exists (id ∷ ids) [] w p = absurd p
    AllLoadable-Exists (id ∷ ids) (g ∷ gs) w p =
        ((frame p.0.stored.body, p.0.stored.file), AllLoadable-Exists ids gs w p.1)
