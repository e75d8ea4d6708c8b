-- ===== src/BufferManager/Whole.antt =====
-- The shards of server/buffer_manager.cc as one store: the groups of the whole server, of which each
-- shard keeps those that route to it, and an operation on one shard.
use transfer_queue.Prelude.{
  ℕ, zero, suc, ◌+◌, ◌<◌, ◌≡◌, ◌≢◌, refl, sym, subst, fun_ext, ◌∙◌, List, [], ◌∷◌, All, none, some,
  some_injective, ite, if_pos, if_neg, Str, ℕ_discrete, arith,
}
use transfer_queue.Action.{Action}
use transfer_queue.Platform.Runtime.{Runtime, View}
use transfer_queue.DiskStorage.{DiskStorage, Env, file_name}
use transfer_queue.DiskStorage.Batch.{Kept, Framed}
use transfer_queue.BufferShard.{BufferShard, Core}
use transfer_queue.BufferShard.Represents.{Matches-Kept}
use transfer_queue.BufferShard.Sound.{Sound}
use transfer_queue.BufferShard.Contract.{Groups}
use transfer_queue.BufferManager.{at, shard_for}
use transfer_queue.BufferManager.Routing.{nth}

module _ {W H F : Type 0} (rt : Runtime W H F) (count : ℕ) where
  -- The groups of the server that route to a shard.
  abbrev pub part : ℕ → Groups F → Groups F
  part k view q = ite (ℕ_discrete (shard_for rt count q) k) (view q) none

  -- The groups of the server after those of one shard have changed.
  abbrev pub merge : ℕ → Groups F → Groups F → Groups F
  merge k after view q = ite (ℕ_discrete (shard_for rt count q) k) (after q) (view q)

  pub part-merge :
      (j k : ℕ) (after view : Groups F) → j ≢ k → part j view ≡ part j (merge k after view)
  part-merge j k after view differs = fun_ext (λ q. elim (ℕ_discrete (shard_for rt count q) j) [
    | yes p ↦
        rw
          (
            if_pos (ℕ_discrete (shard_for rt count q) j) p,
            if_pos (ℕ_discrete (shard_for rt count q) j) p,
            if_neg (ℕ_discrete (shard_for rt count q) k) (λ e. differs (sym p ∙ e)),
          )
          refl
    | no n ↦
        rw
          (
            if_neg (ℕ_discrete (shard_for rt count q) j) n,
            if_neg (ℕ_discrete (shard_for rt count q) j) n,
          )
          refl
  ])

  part-merged :
      (k : ℕ) (after view : Groups F)
      → ((q : Str) → shard_for rt count q ≢ k → after q ≡ none)
      → after ≡ part k (merge k after view)
  part-merged k after view foreign = fun_ext (λ q. elim (ℕ_discrete (shard_for rt count q) k) [
    | yes p ↦
        rw
          (
            if_pos (ℕ_discrete (shard_for rt count q) k) p,
            if_pos (ℕ_discrete (shard_for rt count q) k) p,
          )
          refl
    | no n ↦ rw (if_neg (ℕ_discrete (shard_for rt count q) k) n, foreign q n) refl
  ])

module _ {W H F : Type 0} (rt : Runtime W H F) (v : View W H) where
  -- Two directories without a common file.
  abbrev pub AreApart : DiskStorage → DiskStorage → Type 0
  AreApart d e = (m n : ℕ) → file_name rt d m ≢ file_name rt e n

  -- What happens in one directory leaves another as it is.
  pub Framed-Kept :
      {d e : DiskStorage} {env env' : Env W}
      → AreApart d e
      → Framed rt v d env env'
      → Kept rt v e env env'
  Framed-Kept {e} a f = record {
    same = λ n h. f.elsewhere (file_name rt e n) (λ m p. a m n (sym p));
    grows = f.grows;
  }

  pub Sound-Kept :
      {shard : BufferShard F} {env env' : Env W} {view : Groups F}
      → Kept rt v shard.disk_storage env env'
      → Sound rt v (record { shard = shard; env = env }) view
      → Sound rt v (record { shard = shard; env = env' }) view
  Sound-Kept {shard} {env} {env'} {view} k s = record {
    initialized = s.initialized;
    valid = s.valid;
    represents = record {
      keyed = s.represents.keyed;
      matches =
          λ q. Matches-Kept rt v shard.disk_storage env env' _ (view q) k (s.represents.matches q);
    };
    named = s.named;
    fits = s.fits;
  }

  -- The directory is apart from those of all the shards.
  abbrev pub ApartFrom : DiskStorage → List (BufferShard F) → Type 0
  ApartFrom d l = All (λ s. AreApart d s.disk_storage × AreApart s.disk_storage d) l

  abbrev pub AllApart : List (BufferShard F) → Type 0
  AllApart [] = Unit {0}
  AllApart (s ∷ l) = ApartFrom s.disk_storage l × AllApart l

  module _ (count : ℕ) where
    -- Each shard, from the core `i` on, keeps the groups that route to it.
    abbrev pub AllSound : Env W → ℕ → List (BufferShard F) → Groups F → Type 0
    AllSound env i [] view = Unit {0}
    AllSound env i (s ∷ l) view =
        Sound rt v (record { shard = s; env = env }) (part rt count i view)
        × AllSound env (suc i) l view

    -- What an operation on a shard does to it and to the world.
    pub record Changed (k : ℕ) (core core' : Core W F) (after : Groups F) : Type 0 where
      pub storage : core'.shard.disk_storage ≡ core.shard.disk_storage
      pub framed : Framed rt v core.shard.disk_storage core.env core'.env
      pub sound : Sound rt v core' after
      pub foreign : (q : Str) → shard_for rt count q ≢ k → after q ≡ none

    pub AllSound-nth :
        (sid i : ℕ) (l : List (BufferShard F)) (env : Env W) (view : Groups F)
        (shard : BufferShard F)
        → nth sid l ≡ some shard
        → AllSound env i l view
        → Sound rt v (record { shard = shard; env = env }) (part rt count (i + sid) view)
    AllSound-nth sid i [] env view shard h a = absurd (ground (arith, h))
    AllSound-nth zero i (s ∷ l) env view shard h a =
        subst (λ k. Sound rt v (record { shard = shard; env = env }) (part rt count k view))
          (omega arith)
          (subst (λ x. Sound rt v (record { shard = x; env = env }) (part rt count i view))
            (some_injective h) a.0)
    AllSound-nth (suc sid) i (s ∷ l) env view shard h a =
        subst (λ k. Sound rt v (record { shard = shard; env = env }) (part rt count k view))
          (omega arith) (AllSound-nth sid (suc i) l env view shard h a.1)

    -- The shards after the one that has changed.
    others-Sound :
        (k i : ℕ) (d : DiskStorage) (l : List (BufferShard F)) (env env' : Env W)
        (after view : Groups F)
        → k < i
        → ApartFrom d l
        → Framed rt v d env env'
        → AllSound env i l view
        → AllSound env' i l (merge rt count k after view)
    others-Sound k i d [] env env' after view h p f a = tt
    others-Sound k i d (s ∷ l) env env' after view h p f a = (
      subst (Sound rt v (record { shard = s; env = env' }))
          (part-merge rt count i k after view (λ e. absurd (omega (arith, h, e))))
          (Sound-Kept (Framed-Kept p.0.0 f) a.0),
      others-Sound k (suc i) d l env env' after view (omega (arith, h)) p.1 f a.1,
    )

    -- The shards after an operation on one of them.
    pub record Served (i : ℕ) (l l' : List (BufferShard F)) (env env' : Env W) (view : Groups F)
        : Type 0 where
      pub sound : AllSound env' i l' view
      pub apart : AllApart l'
      pub kept : (d : DiskStorage) → ApartFrom d l → Kept rt v d env env' × ApartFrom d l'

    pub first-Served :
        (core' : Core W F) (i : ℕ) (s : BufferShard F) (l : List (BufferShard F)) (env : Env W)
        (view after : Groups F)
        → AllSound env i (s ∷ l) view
        → AllApart (s ∷ l)
        → Changed i (record { shard = s; env = env }) core' after
        → Served i (s ∷ l) (core'.shard ∷ l) env core'.env (merge rt count i after view)
    first-Served core' i s l env view after a p c = record {
      sound = (
        subst (Sound rt v core') (part-merged rt count i after view c.foreign) c.sound,
        others-Sound i (suc i) s.disk_storage l env core'.env after view (omega arith) p.0 c.framed
            a.1,
      );
      apart = (subst (λ d. ApartFrom d l) (sym c.storage) p.0, p.1);
      kept = λ d q. (
        Framed-Kept q.0.1 c.framed,
        (subst (λ x. AreApart d x × AreApart x d) (sym c.storage) q.0, q.1),
      );
    }

    -- If an operation changes one shard to `after`, the server keeps `after` where it routes to the
    -- shard, and every other group as it was.
    pub at-Served :
        {A : Type 0} (m : Action (Core W F) A) (sid i k : ℕ) (l : List (BufferShard F))
        (env : Env W) (view after : Groups F) (shard : BufferShard F)
        → k ≡ i + sid
        → nth sid l ≡ some shard
        → AllSound env i l view
        → AllApart l
        → Changed k
            (record { shard = shard; env = env })
            (m (record { shard = shard; env = env })).1
            after
        → Served i l (at sid m l env).1 env (at sid m l env).2 (merge rt count k after view)
    unfolding at
    at-Served m sid i k [] env view after shard e h a p c = absurd (ground (arith, h))
    at-Served m zero i k (s ∷ l) env view after shard e h a p c =
        let same : k ≡ i = omega (arith, e) in
        subst
          (λ x.
            Served i (s ∷ l) (at zero m (s ∷ l) env).1 env (at zero m (s ∷ l) env).2
              (merge rt count x after view))
          (sym same)
          (first-Served (m (record { shard = s; env = env })).1 i s l env view after a p (
            subst
              (λ x.
                Changed i (record { shard = x; env = env }) (m (record { shard = x; env = env })).1
                  after)
              (sym (some_injective h))
              (subst
                (λ x.
                  Changed x (record { shard = shard; env = env })
                    (m (record { shard = shard; env = env })).1 after)
                same c)))
    at-Served m (suc sid) i k (s ∷ l) env view after shard e h a p c =
        let rest =
          at-Served m sid (suc i) k l env view after shard (omega (arith, e)) h a.1 p.1 c in
        let (kept, apart) = rest.kept s.disk_storage p.0 in
        record {
          sound = (
            subst (Sound rt v (record { shard = s; env = (at sid m l env).2 }))
                (part-merge rt count i k after view (λ x. absurd (omega (arith, x, e))))
                (Sound-Kept kept a.0),
            rest.sound,
          );
          apart = (apart, rest.apart);
          kept = λ d q. let (kept', apart') = rest.kept d q.1 in (kept', (q.0, apart'));
        }
