-- ===== src/BufferManager/Sharded.antt =====
-- The routing of server/buffer_manager.cc under what the manager does to its shards.
use native.Mathlib.Nat.{mod-lt}
use mathlib.Core.List.{Permᴰ}
use transfer_queue.Prelude.{
  some_injective, ℕ, zero, suc, ◌<◌, ◌≡◌, refl, sym, ap, subst, ◌∙◌, All, List, [], ◌∷◌, ◌++◌, some,
  length, if_pos, if_neg, ℕ_discrete, arith,
}
use transfer_queue.Action.{Action, Result, ok, err, continue}
use transfer_queue.Platform.Runtime.{Runtime}
use transfer_queue.Config.{TransferQueueConfig}
use transfer_queue.Proto.{Trajectory}
use transfer_queue.DiskStorage
use transfer_queue.DiskStorage.{Env}
use transfer_queue.BufferShard
use transfer_queue.BufferShard.{BufferShard, Core, on_world}
use transfer_queue.BufferShard.Groups.{find}
use transfer_queue.BufferShard.Keys.{Owns, Keeps, continue_lem}
use transfer_queue.BufferManager.{
  BufferManager, Server, Batches, each, map_shards, invoke_on, shard_for, push_to, by_shard,
  build_shards, start,
}
use transfer_queue.BufferManager.Routing.{nth}
use transfer_queue.BufferManager.Ownership.{Misplaced, IsRouted, invoke_on-IsRouted}

module _ {W F : Type 0} where
  length-each :
      {A : Type 0} (m : Action (Core W F) A) (l : List (BufferShard F)) (env : Env W)
      → length (each m l env).1 ≡ length l
  unfolding each
  length-each m [] env = refl
  length-each m (s ∷ l) env = ap suc (length-each m l _)

  -- A shard after an operation on each is a shard after the operation.
  nth-each :
      {A : Type 0} (m : Action (Core W F) A) (i : ℕ) (l : List (BufferShard F)) (env : Env W)
      (shard : BufferShard F)
      → nth i (each m l env).1 ≡ some shard
      → (core : Core W F) × (nth i l ≡ some core.shard) × ((m core).1.shard ≡ shard)
  unfolding each
  nth-each m i [] env shard h = absurd (ground (arith, h))
  nth-each m zero (s ∷ l) env shard h = (record { shard = s; env = env }, refl, some_injective h)
  nth-each m (suc i) (s ∷ l) env shard h = nth-each m i l _ shard h

module _ {W H F : Type 0} (rt : Runtime W H F) (count : ℕ) where
  -- The routing, with a shard for each core.
  pub record IsSharded (m : BufferManager F) : Type 0 where
    pub routed : IsRouted rt m
    pub size : length m.shards ≡ count

  abbrev Stays : {A : Type 0} → Action (Core W F) A → Type 0
  Stays m =
      (i : ℕ) (core : Core W F)
      → Keeps rt (Misplaced rt count i) core
      → Keeps rt (Misplaced rt count i) (m core).1

  pub map_shards-IsSharded :
      {A : Type 0} (m : Action (Core W F) A) (s : Server W F)
      → Stays m
      → IsSharded s.manager
      → IsSharded (map_shards m s).1.manager
  unfolding map_shards
  map_shards-IsSharded m s stays h =
      let same = length-each m s.manager.shards s.env in
      record {
        size = same ∙ h.size;
        routed = record {
          owned = λ i shard e.
              let (core, there, after) = nth-each m i s.manager.shards s.env shard e in
              subst (λ k. Owns rt (Misplaced rt k i) shard.groups) (sym (same ∙ h.size))
                (subst (λ x. Owns rt (Misplaced rt count i) x.groups) after
                  (stays i core (
                    subst (λ k. Owns rt (Misplaced rt k i) core.shard.groups) h.size
                      (h.routed.owned i core.shard there))));
        };
      }

  pub invoke_on-IsSharded :
      {A : Type 0} (sid : ℕ) (m : Action (Core W F) A) (s : Server W F)
      → sid < count
      → ((core : Core W F)
          → Keeps rt (Misplaced rt count sid) core
          → Keeps rt (Misplaced rt count sid) (m core).1)
      → IsSharded s.manager
      → IsSharded (invoke_on sid m s).1.manager
  invoke_on-IsSharded sid m s small stays h =
      let r =
        invoke_on-IsRouted rt sid m s (omega (arith, small, h.size))
          (subst
            (λ k.
              (core : Core W F)
              → Keeps rt (Misplaced rt k sid) core
              → Keeps rt (Misplaced rt k sid) (m core).1)
            (sym h.size) stays)
          h.routed in
      record { routed = r.0; size = r.1 ∙ h.size }

  pub after-IsSharded :
      {A : Type 0} (r : Result A × Server W F)
      → IsSharded r.1.manager
      → IsSharded (continue r (λ _ s. (ok tt, s))).1.manager
  after-IsSharded (ok a, s) h = h
  after-IsSharded (err e, s) h = h

  length-build_shards :
      (cfg : TransferQueueConfig F) (id n : ℕ) → length (build_shards rt cfg id n) ≡ n
  unfolding build_shards
  length-build_shards cfg id zero = refl
  length-build_shards cfg id (suc n) = ap suc (length-build_shards cfg (suc id) n)

  build_shards_empty :
      (cfg : TransferQueueConfig F) (id n i : ℕ) (shard : BufferShard F)
      → nth i (build_shards rt cfg id n) ≡ some shard
      → [] ≡ shard.groups
  unfolding build_shards BufferShard.make
  build_shards_empty cfg id zero i shard h = absurd (ground (arith, h))
  build_shards_empty cfg id (suc n) zero shard h = ap (λ s. s.groups) (some_injective h)
  build_shards_empty cfg id (suc n) (suc i) shard h = build_shards_empty cfg (suc id) n i shard h

  built-IsSharded :
      (m : BufferManager F) → IsSharded (record m { shards = build_shards rt m.config 0 count })
  unfolding find
  built-IsSharded m = record {
    size = length-build_shards m.config 0 count;
    routed = record {
      owned = λ i shard e.
          subst (Owns rt (Misplaced rt (length (build_shards rt m.config 0 count)) i))
            (build_shards_empty m.config 0 count i shard e) (tt, λ q h. refl);
    };
  }

  start_shard-Stays : Stays (BufferShard.start rt)
  unfolding BufferShard.start
  start_shard-Stays i core o =
      continue_lem (Keeps rt (Misplaced rt count i))
        (on_world (DiskStorage.init rt core.shard.disk_storage) core) _ o (λ disk s p. o)

  pub start-IsSharded : (s : Server W F) → IsSharded (start rt count s).1.manager
  unfolding start
  start-IsSharded s =
      after-IsSharded _ (
        map_shards-IsSharded (BufferShard.start rt) _ start_shard-Stays (built-IsSharded s.manager))

  -- A batch goes to a core, to which all its trajectories route.
  abbrev pub IsBatch : ℕ × List (Trajectory F) → Type 0
  IsBatch b = (b.0 < count) × All (λ t. shard_for rt count t.instance_id ≡ b.0) b.1

  All-append : {A : Type 0} (P : A → Type 0) (l m : List A) → All P l → All P m → All P (l ++ m)
  All-append P [] m p q = q
  All-append P (a ∷ l) m p q = (p.0, All-append P l m p.1 q)

  push_to-IsBatch :
      (sid : ℕ) (t : Trajectory F) (l : Batches F)
      → sid < count
      → shard_for rt count t.instance_id ≡ sid
      → All IsBatch l
      → All IsBatch (push_to sid t l)
  unfolding push_to
  push_to-IsBatch sid t [] h e p = ((h, (e, tt)), tt)
  push_to-IsBatch sid t ((k, b) ∷ l) h e p = elim (ℕ_discrete sid k) [
    | yes same ↦ rw (if_pos _ same) ((p.0.0, All-append _ b (t ∷ []) p.0.1 (e ∙ same, tt)), p.1)
    | no differs ↦ rw (if_neg _ differs) (p.0, push_to-IsBatch sid t l h e p.1)
  ]

  pub by_shard-IsBatch :
      (ts : List (Trajectory F)) (l : Batches F)
      → 0 < count
      → All IsBatch l
      → All IsBatch (by_shard rt count ts l)
  unfolding by_shard shard_for
  by_shard-IsBatch [] l h p = p
  by_shard-IsBatch (t ∷ ts) l h p =
      by_shard-IsBatch ts (push_to (shard_for rt count t.instance_id) t l) h
        (push_to-IsBatch (shard_for rt count t.instance_id) t l (mod-lt _ h) refl p)

  pub All-perm : {A : Type 0} (P : A → Type 0) {l m : List A} → Permᴰ l m → All P l → All P m
  All-perm P Permᴰ.nil p = tt
  All-perm P (Permᴰ.cons e q) p = (subst P e p.0, All-perm P q p.1)
  All-perm P (Permᴰ.swap e e') p = (subst P e' p.1.0, (subst P e p.0, p.1.1))
  All-perm P (Permᴰ.trans q q') p = All-perm P q' (All-perm P q p)

  pub All-own :
      (sid : ℕ) (ts : List (Trajectory F))
      → All (λ t. shard_for rt count t.instance_id ≡ sid) ts
      → All (λ t. ¬ (Misplaced rt count sid t.instance_id)) ts
  All-own sid [] p = tt
  All-own sid (t ∷ ts) p = (λ foreign. foreign p.0, All-own sid ts p.1)
