-- ===== src/BufferManager/Everywhere.antt =====
-- `shards_.map` of server/buffer_manager.cc: an operation on every shard, seen from the groups of the
-- whole server.
use transfer_queue.Prelude.{
  ℕ, suc, ◌<◌, ◌≡◌, ◌≢◌, refl, ap, subst, ◌∙◌, List, [], ◌∷◌, none, if_neg, ℕ_discrete, Str, length,
  arith,
}
use transfer_queue.Action.{Action, Result, ok}
use transfer_queue.Platform.Runtime.{Runtime, View}
use transfer_queue.DiskStorage.{DiskStorage, Env}
use transfer_queue.DiskStorage.Batch.{Kept, Kept-trans, Kept-refl}
use transfer_queue.BufferShard.{BufferShard, Core}
use transfer_queue.BufferShard.Sound.{Sound}
use transfer_queue.BufferShard.Contract.{Groups}
use transfer_queue.BufferManager.{each, shard_for}
use transfer_queue.BufferManager.Whole.{
  part, merge, part-merge, AllSound, AllApart, ApartFrom, Changed, first-Served, Sound-Kept,
}

module _ {W H F : Type 0} (rt : Runtime W H F) (count : ℕ) {A : Type 0}
    (Did : A → Groups F → Groups F → Type 0) where
  -- What the shards did to the groups of the server, one after another.
  abbrev pub AllDid : ℕ → List A → Groups F → Groups F → Type 0
  AllDid i [] view after = view ≡ after
  AllDid i (a ∷ as') view after =
      (x : Groups F) × Did a (part rt count i view) x
      × ((q : Str) → shard_for rt count q ≢ i → x q ≡ none)
      × AllDid (suc i) as' (merge rt count i x view) after

  -- They leave what routes to the shards before them.
  pub before_lem :
      (j i : ℕ) (as' : List A) (view after : Groups F)
      → j < i
      → AllDid i as' view after
      → part rt count j view ≡ part rt count j after
  before_lem j i [] view after h d = ap (part rt count j) d
  before_lem j i (a ∷ as') view after h (x, did, foreign, rest) =
      part-merge rt count j i x view (λ e. absurd (omega (arith, h, e)))
      ∙ before_lem j (suc i) as' (merge rt count i x view) after (omega (arith, h)) rest

  module _ (v : View W H) where
    pub record EachDone (i : ℕ) (l : List (BufferShard F)) (env : Env W) (view : Groups F)
        (r : Result (List A) × List (BufferShard F) × Env W) : Type 0 where
      pub values : List A
      pub after : Groups F
      pub returned : r.0 ≡ ok values
      pub size : length values ≡ length l
      pub same_size : length r.1 ≡ length l
      pub sound : AllSound rt v count r.2 i r.1 after
      pub apart : AllApart rt v r.1
      pub kept : (d : DiskStorage) → ApartFrom rt v d l → Kept rt v d env r.2 × ApartFrom rt v d r.1
      pub did : AllDid i values view after

    -- If an operation succeeds on every shard, all shards are sound after it has run on each.
    pub each-Done :
        (m : Action (Core W F) A) (i : ℕ) (l : List (BufferShard F)) (env : Env W) (view : Groups F)
        → ((k : ℕ) (core : Core W F) (w : Groups F)
            → Sound rt v core w
            → ((q : Str) → shard_for rt count q ≢ k → w q ≡ none)
            → (a : A) × (after : Groups F) × ((m core).0 ≡ ok a)
              × Changed rt v count k core (m core).1 after
              × Did a w after)
        → AllSound rt v count env i l view
        → AllApart rt v l
        → EachDone i l env view (each m l env)
    unfolding each
    each-Done m i [] env view does a p = record {
      values = [];
      after = view;
      returned = refl;
      size = refl;
      same_size = refl;
      sound = tt;
      apart = tt;
      kept = λ d q. (Kept-refl rt v d env, tt);
      did = refl;
    }
    each-Done m i (s ∷ l) env view does a p =
        let core : Core W F = record { shard = s; env = env } in
        let (value, x, returned, changed, did) =
          does i core (part rt count i view) a.0
            (λ q n. if_neg (ℕ_discrete (shard_for rt count q) i) n _ _) in
        let first = first-Served rt v count (m core).1 i s l env view x a p changed in
        let rest =
          each-Done m (suc i) l (m core).1.env (merge rt count i x view) does first.sound.1
            first.apart.1 in
        let (kept_first, apart_first) = rest.kept (m core).1.shard.disk_storage first.apart.0 in
        let final : Env W = (each m l (m core).1.env).2 in
        rw (returned, rest.returned)
          (record {
            values = value ∷ rest.values;
            after = rest.after;
            returned = refl;
            size = ap suc rest.size;
            same_size = ap suc rest.same_size;
            sound = (
              subst (Sound rt v (record { shard = (m core).1.shard; env = final }))
                  (before_lem i (suc i) rest.values (merge rt count i x view) rest.after
                    (omega arith) rest.did)
                  (Sound-Kept rt v kept_first first.sound.0),
              rest.sound,
            );
            apart = (apart_first, rest.apart);
            kept = λ d q.
                let (kept', q') = first.kept d q in
                let (kept'', q'') = rest.kept d q'.1 in
                (Kept-trans rt v d kept' kept'', (q'.0, q''));
            did = (x, did, changed.foreign, rest.did);
          })
