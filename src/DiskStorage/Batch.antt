-- ===== src/DiskStorage/Batch.antt =====
-- `spill_batch` of server/disk_storage.cc: what holds on disk when it returns.
use transfer_queue.Prelude.{
  ℕ, suc, ◌+◌, ◌^◌, ◌≤◌, ◌<◌, ◌≡◌, ◌≢◌, refl, ap, ◌∙◌, true, List, [], ◌∷◌, some, Str, length, All,
  arith,
}
use native.Mathlib.Nat.{le_trans}
use transfer_queue.Action.{Result, ok, for_each}
use transfer_queue.Platform.Runtime.{Runtime, View, IsCodec, IsReliable}
use transfer_queue.Proto.{TrajectoryGroup}
use transfer_queue.DiskStorage.{DiskStorage, Env, frame, spill, spill_batch, file_name}
use transfer_queue.DiskStorage.RoundTrip.{Spilled, spill_lem, file_name-injective}

module _ {W H F : Type 0} (rt : Runtime W H F) (v : View W H) (d : DiskStorage) where
  -- A file that holds a group.
  pub record OnDisk (w : W) (id : ℕ) (g : TrajectoryGroup F) : Type 0 where
    pub body : Str
    pub serialized : rt.serialize g ≡ some body
    pub file : v.contents w (file_name rt d id) ≡ some (frame body)
    pub nonzero : 0 < id

  -- A bound on the ids that were given out.
  abbrev pub bound : Env W → ℕ
  bound env = v.time env.world + env.counter

  abbrev pub Saved : Env W → List (TrajectoryGroup F) → List ℕ → Type 0
  Saved env [] [] = Unit {0}
  Saved env (g ∷ gs) (id ∷ ids) = OnDisk env.world id g × (id < bound env) × Saved env gs ids
  Saved env _ _ = ⊥

  -- The files of the ids given out so far are as they were.
  pub record Kept (env env' : Env W) : Type 0 where
    pub same :
        (n : ℕ)
        → n < bound env
        → v.contents env'.world (file_name rt d n) ≡ v.contents env.world (file_name rt d n)
    pub grows : bound env ≤ bound env'

  pub Kept-refl : (env : Env W) → Kept env env
  Kept-refl env = record { same = λ n h. refl; grows = omega arith }

  pub Kept-trans : {a b c : Env W} → Kept a b → Kept b c → Kept a c
  Kept-trans p q = record {
    same = λ n h. q.same n (le_trans h p.grows) ∙ p.same n h;
    grows = le_trans p.grows q.grows;
  }

  -- The files outside of the directory are as they were.
  pub record Framed (env env' : Env W) : Type 0 where
    pub elsewhere :
        (q : Str)
        → ((n : ℕ) → q ≢ file_name rt d n)
        → v.contents env'.world q ≡ v.contents env.world q
    pub grows : bound env ≤ bound env'

  pub Framed-refl : (env : Env W) → Framed env env
  Framed-refl env = record { elsewhere = λ q h. refl; grows = omega arith }

  pub Framed-trans : {a b c : Env W} → Framed a b → Framed b c → Framed a c
  Framed-trans p r = record {
    elsewhere = λ q h. r.elsewhere q h ∙ p.elsewhere q h;
    grows = le_trans p.grows r.grows;
  }

  pub OnDisk-Kept :
      {env env' : Env W} {id : ℕ} {g : TrajectoryGroup F}
      → Kept env env'
      → id < bound env
      → OnDisk env.world id g
      → OnDisk env'.world id g
  OnDisk-Kept {id} k h o = record {
    body = o.body;
    serialized = o.serialized;
    file = k.same id h ∙ o.file;
    nonzero = o.nonzero;
  }

  -- A group that Protobuf can serialise.
  abbrev pub IsSerializable : TrajectoryGroup F → Type 0
  IsSerializable g = (s : Str) × (rt.serialize g ≡ some s)

  pub record Batch (env : Env W) (gs : List (TrajectoryGroup F)) (ids : List ℕ)
      (r : Result (List ℕ) × Env W) : Type 0 where
    pub returned : r.0 ≡ ok ids
    pub saved : Saved r.1 gs ids
    pub kept : Kept env r.1
    pub framed : Framed env r.1
    pub size : length ids ≡ length gs

  module _ (codec : IsCodec rt) (reliable : IsReliable rt v) (on : d.initialized ≡ true) where
    spill-Kept :
        (env : Env W) (s : Str) (id : ℕ) {r : Result ℕ × Env W}
        → Spilled rt v reliable d s env r id
        → Kept env r.1
    spill-Kept env s id p = record {
      same = λ n h. p.wrote.same (file_name rt d n) (λ e.
          absurd (omega (arith, file_name-injective rt v reliable d n id codec e, p.fresh, h)));
      grows = omega (arith, p.fresh, p.next);
    }

    spill-Framed :
        (env : Env W) (s : Str) (id : ℕ) {r : Result ℕ × Env W}
        → Spilled rt v reliable d s env r id
        → Framed env r.1
    spill-Framed env s id p = record {
      elsewhere = λ q h. p.wrote.same q (h id);
      grows = omega (arith, p.fresh, p.next);
    }

    -- On a machine where no file operation fails, a batch of groups is stored under new ids, in
    -- order, and no file of an older id changes.
    pub spill_batch-Batch :
        (gs : List (TrajectoryGroup F)) (env : Env W)
        → All IsSerializable gs
        → env.counter + length gs < 2 ^ 63
        → (ids : List ℕ) × Batch env gs ids (spill_batch rt d gs env)
    unfolding spill_batch for_each
    spill_batch-Batch [] env a h = (
      [],
      record {
        returned = refl;
        saved = tt;
        kept = Kept-refl env;
        framed = Framed-refl env;
        size = refl;
      },
    )
    spill_batch-Batch (g ∷ gs) env a h =
        let (id, p) = spill_lem rt v reliable d g a.0.0 env on a.0.1 (omega arith) in
        let env₁ = (spill rt d g env).1 in
        let (ids, b) = spill_batch-Batch gs env₁ a.1 (omega (arith, p.counter)) in
        let first : OnDisk env₁.world id g = record {
          body = a.0.0;
          serialized = a.0.1;
          file = p.wrote.there;
          nonzero = p.nonzero;
        } in
        (
          id ∷ ids,
          rw (p.returned, b.returned)
              (record {
                returned = refl;
                saved =
                    (OnDisk-Kept b.kept p.next first, omega (arith, p.next, b.kept.grows), b.saved);
                kept = Kept-trans (spill-Kept env a.0.0 id p) b.kept;
                framed = Framed-trans (spill-Framed env a.0.0 id p) b.framed;
                size = ap suc b.size;
              }),
        )
