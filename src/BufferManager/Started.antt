-- ===== src/BufferManager/Started.antt =====
-- `start` of server/buffer_manager.cc builds the server that the contract of BufferShard/Contract
-- starts from.
use transfer_queue.Prelude.{
  ℕ, zero, suc, ◌<◌, ◌≡◌, refl, sym, ap, ap₂, subst, fun_ext, ◌∙◌, true, false, List, [], ◌∷◌, ◌++◌,
  map, none, ite, ℕ_discrete, Str, length, arith,
}
use transfer_queue.Action.{Action, Result, pure, not_a_directory, ok, err, continue}
use transfer_queue.Config.{TransferQueueConfig}
use transfer_queue.Platform.Runtime.{Runtime, View, IsCodec, IsReliable}
use transfer_queue.DedupFilter.History.{make-IsValid}
use transfer_queue.DiskStorage
use transfer_queue.DiskStorage.{DiskStorage, Env}
use transfer_queue.BufferShard
use transfer_queue.BufferShard.{BufferShard, Core, put}
use transfer_queue.BufferShard.Groups.{GroupMap, find}
use transfer_queue.BufferShard.Entries.{IsReordering}
use transfer_queue.BufferShard.Limit.{Ensures, Ensures-continue, any_result}
use transfer_queue.BufferShard.Sound.{Sound}
use transfer_queue.BufferShard.Contract.{Groups}
use transfer_queue.BufferShard.Contract.Balance.{trajectories_of, all_put, all_taken}
use transfer_queue.BufferManager.{Server, shard_for, gather, each, map_shards, build_shards, start}
use transfer_queue.BufferManager.Whole.{part, AllSound, AllApart}
use transfer_queue.BufferManager.Serves.{Whole}
use transfer_queue.BufferManager.Sharded.{start-IsSharded}
use transfer_queue.BufferManager.Directories.{NoSlash, opened, build_shards-AllApart}
use transfer_queue.BufferManager.Runs.{
  Request, MayRunAll, run_requests-WholeRan, run_requests_balance,
}

abbrev pub nothing : {F : Type 0} → Groups F
nothing q = none

gather_ok :
    {A : Type 0} (r : Result A) (rs : Result (List A)) {l : List A}
    → gather r rs ≡ ok l
    → (a : A) × (as' : List A) × (r ≡ ok a) × (rs ≡ ok as')
gather_ok (err e) rs h = absurd (ground (arith, h))
gather_ok (ok a) (err e) h = absurd (ground (arith, h))
gather_ok (ok a) (ok as') h = (a, as', refl, refl)

after_ok :
    {S A : Type 0} (r : Result A × S)
    → (continue r (λ _ s. (ok tt, s))).0 ≡ ok tt
    → ((a : A) × (r.0 ≡ ok a)) × ((continue r (λ _ s. (ok tt, s))).1 ≡ r.1)
after_ok (ok a, s) h = ((a, refl), refl)
after_ok (err e, s) h = absurd (ground (arith, h))

any_continue :
    {S A B : Type 0} (Q : B → Type 0) (r : Result A × S) (f : A → Action S B)
    → ((a : A) (s : S) → Ensures Q (f a s).0)
    → Ensures Q (continue r f).0
any_continue Q r f h = Ensures-continue (λ _. Unit {0}) Q r f (any_result r.0) (λ a s _. h a s)

module _ {W H F : Type 0} (rt : Runtime W H F) where
  init_lem :
      (d : DiskStorage) (w : W)
      → Ensures (λ d'. d' ≡ record d { initialized = true }) (DiskStorage.init rt d w).0
  unfolding DiskStorage.init
  init_lem d w =
      let Q : DiskStorage → Type 0 = λ x. x ≡ record d { initialized = true } in
      any_continue Q (rt.file_exists d.bdev_name w) _ (λ exists s.
        let made : Action W (Unit {0}) = elim exists [
          | true ↦ pure tt
          | false ↦ rt.make_directory d.bdev_name
        ] in
        any_continue Q (made s) _ (λ x s'.
          any_continue Q (rt.is_directory d.bdev_name s') _ (λ is_dir s''.
            any_continue Q (DiskStorage.guard is_dir not_a_directory s'') _ (λ y s₃. refl))))

  opened_lem :
      {u : Unit {0}} (shard : BufferShard F) (r : Result DiskStorage × Core W F)
      → Ensures (λ d. d ≡ record shard.disk_storage { initialized = true }) r.0
      → (continue r (λ d. put (record shard { disk_storage = d }))).0 ≡ ok u
      → (continue r (λ d. put (record shard { disk_storage = d }))).1.shard ≡ opened shard
  opened_lem shard (ok d, core) e h = ap (λ x. record shard { disk_storage = x }) e
  opened_lem shard (err e, core) t h = absurd (ground (arith, h))

  start_shard :
      {u : Unit {0}} (core : Core W F)
      → (BufferShard.start rt core).0 ≡ ok u
      → (BufferShard.start rt core).1.shard ≡ opened core.shard
  unfolding BufferShard.start
  start_shard core h = opened_lem core.shard _ (init_lem core.shard.disk_storage core.env.world) h

  each_start :
      (l : List (BufferShard F)) (env : Env W) {us : List (Unit {0})}
      → (each (BufferShard.start rt) l env).0 ≡ ok us
      → (each (BufferShard.start rt) l env).1 ≡ map opened l
  unfolding each
  each_start [] env h = refl
  each_start (s ∷ l) env h =
      let (u, us, first, rest) = gather_ok _ _ h in
      ap₂ ◌∷◌ (start_shard (record { shard = s; env = env }) first) (each_start l _ rest)

  pub part-nothing : (count k : ℕ) → nothing ≡ part rt count k nothing
  part-nothing count k = fun_ext (λ q.
      elim (ℕ_discrete (shard_for rt count q) k)
        as (λ d. nothing {F = F} q ≡ ite d (nothing q) none) [ yes p ↦ refl | no n ↦ refl ])

  module _ (v : View W H) (count : ℕ) where
    empty-AllSound :
        (cfg : TransferQueueConfig F) (env : Env W) (i n : ℕ)
        → AllSound rt v count env i (map opened (build_shards rt cfg i n)) nothing
    unfolding build_shards find BufferShard.make DiskStorage.make
    empty-AllSound cfg env i zero = tt
    empty-AllSound cfg env i (suc n) = (
      subst (Sound rt v (record { shard = opened (BufferShard.make rt cfg i); env = env }))
          (part-nothing count i)
          (record {
            initialized = refl;
            valid = (make-IsValid rt.hash rt.double 100000 (rt.double.decimal 1 2)).0;
            represents = record { keyed = tt; matches = λ q. tt };
            named = λ q g h. absurd (ground (arith, h));
            fits = λ q g h. absurd (ground (arith, h));
          }),
      empty-AllSound cfg env (suc i) n,
    )

    -- If `start` returns, every shard is sound and has a directory of its own, and the server keeps
    -- no group. The decimal digits of a number have no slash.
    pub start-Whole :
        (s : Server W F)
        → 0 < count
        → IsCodec rt
        → ((n : ℕ) → NoSlash (rt.to_string n))
        → (start rt count s).0 ≡ ok tt
        → Whole rt v count (start rt count s).1 nothing
    unfolding start map_shards
    start-Whole s positive codec digits returned =
        let m = BufferShard.start rt in
        let built : Server W F = record s {
          manager = record s.manager { shards = build_shards rt s.manager.config 0 count };
        } in
        let ((us, each_ok), same) = after_ok (map_shards m built) returned in
        let shards = each_start (build_shards rt s.manager.config 0 count) s.env each_ok in
        subst (λ x. Whole rt v count x nothing) (sym same)
          (record {
            positive = positive;
            size = ap (λ x. length x.manager.shards) (sym same) ∙ (start-IsSharded rt count s).size;
            sound =
                subst (λ l. AllSound rt v count (map_shards m built).1.env 0 l nothing) (sym shards)
                  (empty-AllSound s.manager.config (map_shards m built).1.env 0 count);
            apart =
                subst (AllApart rt v) (sym shards)
                  (build_shards-AllApart rt v codec digits s.manager.config 0 count);
          })

module _ {W H F : Type 0} (rt : Runtime W H F) (v : View W H) (codec : IsCodec rt)
    (reliable : IsReliable rt v) (count : ℕ) (arrange : GroupMap F → GroupMap F)
    (reorders : IsReordering arrange) where
  -- Over a run of the server since `start`, for every instance, what the writes appended to its
  -- group is what was read, deleted and reset, in the same order, and then what the server still
  -- keeps. No file operation fails, and the decimal digits of a number have no slash.
  pub start_balance :
      (requests : List (Request F)) (s : Server W F)
      → (positive : 0 < count) → (digits : (n : ℕ) → NoSlash (rt.to_string n))
      → (returned : (start rt count s).0 ≡ ok tt)
      → (may : MayRunAll rt v codec reliable count arrange reorders requests (start rt count s).1)
      → (q : Str)
      → let x =
          run_requests-WholeRan rt v codec reliable count arrange reorders _ requests
            (start rt count s).1
            nothing
            refl
            (start-Whole rt v count s positive codec digits returned)
            may in
        all_put q x.history ≡ all_taken q x.history ++ trajectories_of (x.after q)
  start_balance requests s positive digits returned may q =
      run_requests_balance rt v codec reliable count arrange reorders _ requests
        (start rt count s).1 nothing refl (start-Whole rt v count s positive codec digits returned)
        may q
