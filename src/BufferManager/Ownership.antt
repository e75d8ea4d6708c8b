-- ===== src/BufferManager/Ownership.antt =====
-- Which instances the shards of server/buffer_manager.cc hold.
use native.Mathlib.Nat.{mod-lt}
use transfer_queue.Prelude.{
  some_injective, ℕ, ◌<◌, ◌≡◌, ◌≢◌, refl, sym, ap, subst, ◌∙◌, some, Str, length, ℕ_discrete,
}
use transfer_queue.Action.{Action}
use transfer_queue.Platform.Runtime.{Runtime}
use transfer_queue.Proto.{Trajectory}
use transfer_queue.BufferShard.{BufferShard, Core}
use transfer_queue.BufferShard.Groups.{GroupMap}
use transfer_queue.BufferShard.Entries.{IsReordering}
use transfer_queue.BufferShard.Keys.{Owns, Keeps, write-Owns}
use transfer_queue.BufferShard.Write
use transfer_queue.BufferManager.{BufferManager, Server, shard_for, write, invoke_on}
use transfer_queue.BufferManager.Routing.{nth, invoke_on-Routed}

module _ {W H F : Type 0} (rt : Runtime W H F) where
  -- A key that does not belong on a shard.
  abbrev pub Misplaced : ℕ → ℕ → Str → Type 0
  Misplaced count i q = shard_for rt count q ≢ i

  -- Each shard holds no key twice, and only keys that route to it.
  pub record IsRouted (m : BufferManager F) : Type 0 where
    pub owned :
        (i : ℕ) (shard : BufferShard F)
        → nth i m.shards ≡ some shard
        → Owns rt (Misplaced (length m.shards) i) shard.groups

  -- An operation that keeps the keys of the shard that it runs on keeps the routing.
  pub invoke_on-IsRouted :
      {A : Type 0} (sid : ℕ) (m : Action (Core W F) A) (s : Server W F)
      → sid < length s.manager.shards
      → ((core : Core W F)
          → Keeps rt (Misplaced (length s.manager.shards) sid) core
          → Keeps rt (Misplaced (length s.manager.shards) sid) (m core).1)
      → IsRouted s.manager
      → IsRouted (invoke_on sid m s).1.manager
        × (length (invoke_on sid m s).1.manager.shards ≡ length s.manager.shards)
  invoke_on-IsRouted sid m s h keeps r =
      let w = invoke_on-Routed sid m s h in
      let n = length s.manager.shards in
      let shards = (invoke_on sid m s).1.manager.shards in
      (
        record {
          owned = λ i shard e.
              subst (λ k. Owns rt (Misplaced k i) shard.groups) (sym w.size)
                (elim (ℕ_discrete i sid) [
                  | no away ↦ r.owned i shard (sym (w.elsewhere i away) ∙ e)
                  | yes here ↦
                      let after = m (record { shard = w.shard; env = s.env }) in
                      let same : after.1.shard ≡ shard =
                        some_injective (sym w.here ∙ ap (λ k. nth k shards) (sym here) ∙ e) in
                      subst (λ k. Owns rt (Misplaced n k) shard.groups) (sym here)
                        (subst (λ x. Owns rt (Misplaced n sid) x.groups) same
                          (keeps (record { shard = w.shard; env = s.env })
                            (r.owned sid w.shard w.found)))
                ]);
        },
        w.size,
      )

  module _ (arrange : GroupMap F → GroupMap F) (reorders : IsReordering arrange) where
    -- Whatever fails on the way, `write` of a manager with at least one shard keeps every instance
    -- on the shard that its id routes to, and no shard holds a key twice.
    pub write-IsRouted :
        (t : Trajectory F) (s : Server W F)
        → 0 < length s.manager.shards
        → IsRouted s.manager
        → IsRouted (write rt (length s.manager.shards) arrange t s).1.manager
    unfolding write shard_for
    write-IsRouted t s h r =
        let sid = shard_for rt (length s.manager.shards) t.instance_id in
        (invoke_on-IsRouted sid (Write.write rt arrange s.manager.config t) s (mod-lt _ h)
          (λ core o.
            write-Owns rt (Misplaced (length s.manager.shards) sid) arrange reorders
              s.manager.config t core (λ foreign. foreign refl) o)
          r).0
