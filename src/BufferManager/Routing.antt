-- ===== src/BufferManager/Routing.antt =====
-- Which shard of server/buffer_manager.cc an operation reaches.
use transfer_queue.Prelude.{
  ℕ, zero, suc, ◌<◌, ◌≡◌, ◌≢◌, refl, sym, ap, List, [], ◌∷◌, ◌++◌, Option, none, some, length, ite,
  ℕ_discrete, arith,
}
use mathlib.Core.List.{append-nil, append_assoc}
use native.Mathlib.Nat.{mod-lt}
use transfer_queue.Action.{Action, Result}
use transfer_queue.Platform.Runtime.{Runtime}
use transfer_queue.Proto.{Trajectory}
use transfer_queue.DiskStorage.{Env}
use transfer_queue.BufferShard.{BufferShard, Core}
use transfer_queue.BufferShard.Groups.{GroupMap}
use transfer_queue.BufferShard.Write
use transfer_queue.BufferManager.{
  Server, Batches, at, invoke_on, push_to, shard_for, by_shard, write,
}

module _ {F : Type 0} where
  -- The batch of a shard.
  unfoldable pub batch_of : ℕ → Batches F → List (Trajectory F)
  batch_of sid [] = []
  batch_of sid ((k, b) ∷ l) = ite (ℕ_discrete sid k) b (batch_of sid l)

  abbrev pub Elsewhere : ℕ → Batches F → Type 0
  Elsewhere sid [] = Unit {0}
  Elsewhere sid ((k, b) ∷ l) = (sid ≢ k) × Elsewhere sid l

  -- At most one batch for each shard.
  abbrev pub OneEach : Batches F → Type 0
  OneEach [] = Unit {0}
  OneEach ((k, b) ∷ l) = Elsewhere k l × OneEach l

  batch_of-push_to :
      (q sid : ℕ) (t : Trajectory F) (l : Batches F)
      → batch_of q (push_to sid t l)
        ≡ ite (ℕ_discrete q sid) (batch_of q l ++ t ∷ []) (batch_of q l)
  unfolding batch_of push_to
  batch_of-push_to q sid t [] = ground arith
  batch_of-push_to q sid t ((k, b) ∷ l) = ground (arith, batch_of-push_to q sid t l)

  push_to-Elsewhere :
      (q sid : ℕ) (t : Trajectory F) (l : Batches F)
      → q ≢ sid
      → Elsewhere q l
      → Elsewhere q (push_to sid t l)
  unfolding push_to
  push_to-Elsewhere q sid t [] h e = (h, tt)
  push_to-Elsewhere q sid t ((k, b) ∷ l) h e = ground (arith, e, push_to-Elsewhere q sid t l h e.1)

  push_to-OneEach :
      (sid : ℕ) (t : Trajectory F) (l : Batches F) → OneEach l → OneEach (push_to sid t l)
  unfolding push_to
  push_to-OneEach sid t [] o = (tt, tt)
  push_to-OneEach sid t ((k, b) ∷ l) o =
      elim (ℕ_discrete sid k)
        as (λ d. OneEach (ite d ((k, b ++ t ∷ []) ∷ l) ((k, b) ∷ push_to sid t l))) [
          | yes p ↦ o
          | no p ↦ (push_to-Elsewhere k sid t l (λ e. p (sym e)) o.0, push_to-OneEach sid t l o.1)
        ]

module _ {W H F : Type 0} (rt : Runtime W H F) (count : ℕ) where
  -- The trajectories of a list that go to a shard, in order.
  unfoldable pub routed : ℕ → List (Trajectory F) → List (Trajectory F)
  routed sid [] = []
  routed sid (t ∷ ts) =
      ite (ℕ_discrete sid (shard_for rt count t.instance_id)) (t ∷ routed sid ts) (routed sid ts)

  by_shard_from :
      (sid : ℕ) (ts : List (Trajectory F)) (l : Batches F)
      → batch_of sid (by_shard rt count ts l) ≡ batch_of sid l ++ routed sid ts
  unfolding by_shard routed
  by_shard_from sid [] l = sym (append-nil (batch_of sid l))
  by_shard_from sid (t ∷ ts) l =
      let k = shard_for rt count t.instance_id in
      ground (
        arith,
        by_shard_from sid ts (push_to k t l),
        batch_of-push_to sid k t l,
        append_assoc (batch_of sid l) (t ∷ []) (routed sid ts),
      )

  by_shard-OneEach :
      (ts : List (Trajectory F)) (l : Batches F) → OneEach l → OneEach (by_shard rt count ts l)
  unfolding by_shard
  by_shard-OneEach [] l o = o
  by_shard-OneEach (t ∷ ts) l o = by_shard-OneEach ts _ (push_to-OneEach _ t l o)

  -- `batch_write` makes at most one batch for each shard, which holds exactly the trajectories that
  -- route there, in the order in which they came.
  pub by_shard-routed :
      (sid : ℕ) (ts : List (Trajectory F))
      → (batch_of sid (by_shard rt count ts []) ≡ routed sid ts) × OneEach (by_shard rt count ts [])
  unfolding batch_of
  by_shard-routed sid ts = (by_shard_from sid ts [], by_shard-OneEach ts [] tt)

-- The shard of a core.
abbrev pub nth : {F : Type 0} → ℕ → List (BufferShard F) → Option (BufferShard F)
nth i [] = none
nth zero (s ∷ l) = some s
nth (suc i) (s ∷ l) = nth i l

module _ {W F : Type 0} where
  -- An operation at a core that has a shard: its result, its effect there, and nothing elsewhere.
  pub record Routed {A : Type 0} (sid : ℕ) (m : Action (Core W F) A) (s : Server W F)
      (r : Result A × Server W F) : Type 0 where
    pub shard : BufferShard F
    pub found : nth sid s.manager.shards ≡ some shard
    pub result : r.0 ≡ (m (record { shard = shard; env = s.env })).0
    pub here : nth sid r.1.manager.shards ≡ some (m (record { shard = shard; env = s.env })).1.shard
    pub elsewhere : (i : ℕ) → i ≢ sid → nth i r.1.manager.shards ≡ nth i s.manager.shards
    pub config : r.1.manager.config ≡ s.manager.config
    pub size : length r.1.manager.shards ≡ length s.manager.shards

  record Reached {A : Type 0} (sid : ℕ) (m : Action (Core W F) A) (l : List (BufferShard F))
      (env : Env W) : Type 0 where
    shard : BufferShard F
    found : nth sid l ≡ some shard
    result : (at sid m l env).0 ≡ (m (record { shard = shard; env = env })).0
    here : nth sid (at sid m l env).1 ≡ some (m (record { shard = shard; env = env })).1.shard
    elsewhere : (i : ℕ) → i ≢ sid → nth i (at sid m l env).1 ≡ nth i l

  at-Reached :
      {A : Type 0} (sid : ℕ) (m : Action (Core W F) A) (l : List (BufferShard F)) (env : Env W)
      → sid < length l
      → Reached sid m l env
  unfolding at
  at-Reached sid m [] env h = absurd (omega (arith, h))
  at-Reached zero m (s ∷ l) env h = record {
    shard = s;
    found = refl;
    result = refl;
    here = refl;
    elsewhere = λ i. elim i as (λ k. k ≢ 0 → nth k (at zero m (s ∷ l) env).1 ≡ nth k (s ∷ l)) [
      | zero ↦ λ d. absurd (d refl)
      | suc j ↦ λ d. refl
    ];
  }
  at-Reached (suc sid) m (s ∷ l) env h =
      let r = at-Reached sid m l env (omega (arith, h)) in
      record {
        shard = r.shard;
        found = r.found;
        result = r.result;
        here = r.here;
        elsewhere = λ i.
            elim i as (λ k. k ≢ suc sid → nth k (at (suc sid) m (s ∷ l) env).1 ≡ nth k (s ∷ l)) [
              | zero ↦ λ d. refl
              | suc j ↦ λ d. r.elsewhere j (λ e. d (ap suc e))
            ];
      }

  length-at :
      {A : Type 0} (sid : ℕ) (m : Action (Core W F) A) (l : List (BufferShard F)) (env : Env W)
      → length (at sid m l env).1 ≡ length l
  unfolding at
  length-at sid m [] env = refl
  length-at zero m (s ∷ l) env = refl
  length-at (suc sid) m (s ∷ l) env = ap suc (length-at sid m l env)

  pub invoke_on-Routed :
      {A : Type 0} (sid : ℕ) (m : Action (Core W F) A) (s : Server W F)
      → sid < length s.manager.shards
      → Routed sid m s (invoke_on sid m s)
  unfolding invoke_on
  invoke_on-Routed sid m s h =
      let r = at-Reached sid m s.manager.shards s.env h in
      record {
        shard = r.shard;
        found = r.found;
        result = r.result;
        here = r.here;
        elsewhere = r.elsewhere;
        config = refl;
        size = length-at sid m s.manager.shards s.env;
      }

module _ {W H F : Type 0} (rt : Runtime W H F) (arrange : GroupMap F → GroupMap F) where
  -- With a shard for each core, `write` is the write of the shard that the instance id routes to:
  -- it returns what that returns, and changes no other shard.
  pub write-Routed :
      (t : Trajectory F) (s : Server W F)
      → 0 < length s.manager.shards
      → Routed
          (shard_for rt (length s.manager.shards) t.instance_id)
          (Write.write rt arrange s.manager.config t)
          s
          (write rt (length s.manager.shards) arrange t s)
  unfolding write shard_for
  write-Routed t s h = invoke_on-Routed _ _ s (mod-lt _ h)
