-- ===== src/BufferManager/Reading.antt =====
-- What `read_ready_groups` of server/buffer_manager.cc merges.
use transfer_queue.Prelude.{
  ℕ, suc, ◌+◌, ◌^◌, ◌<◌, ◌≡◌, refl, Bool-cases, inl, inr, List, [], ◌∷◌, map, length, take,
  take_of_length-le, All, arith,
}
use transfer_queue.Prelude.Int.{pos, ltb_ℤ, to_int32}
use transfer_queue.Action.{ok}
use transfer_queue.Platform.Runtime.{Runtime}
use transfer_queue.DiskStorage.{Env}
use transfer_queue.BufferShard.{BufferShard}
use transfer_queue.BufferShard.Entries.{Keyed}
use transfer_queue.BufferShard.Read
use transfer_queue.BufferShard.Read.{count_trajectories}
use transfer_queue.BufferShard.Consume.{InMemory, ready_of, waiting, read-InMemory}
use transfer_queue.BufferManager.{Server, each, map_shards, merge_all, truncated, read_ready_groups}

-- Under 2^31 merged groups, the cut to a positive limit keeps the first ones, as many as the limit.
pub truncated_lem :
    {A : Type 0} (n : ℕ) (l : List A)
    → length l < 2 ^ 31
    → truncated (pos (suc n)) l ≡ take (suc n) l
unfolding truncated
truncated_lem n l h = elim (Bool-cases (ltb_ℤ (pos (suc n)) (to_int32 (length l)))) [
  | inl over ↦ rw over refl
  | inr fits ↦ rw (fits, take_of_length-le (suc n) l (ground (arith, fits, h))) refl
]

module _ {F : Type 0} where
  -- A shard without its ready groups.
  abbrev pub drained : BufferShard F → BufferShard F
  drained s = record s {
    groups = waiting s.groups;
    total_consumed = s.total_consumed + count_trajectories (ready_of s.groups);
  }

  abbrev pub Plain : BufferShard F → Type 0
  Plain s = Keyed s.groups × InMemory s.groups

module _ {W H F : Type 0} (rt : Runtime W H F) where
  each_read :
      (l : List (BufferShard F)) (env : Env W)
      → All Plain l
      → each (Read.read_ready_groups rt (pos 0)) l env
        ≡ (ok (map (λ s. ready_of s.groups) l), map drained l, env)
  unfolding each
  each_read [] env p = refl
  each_read (s ∷ l) env p =
      rw (read-InMemory rt (record { shard = s; env = env }) p.0.0 p.0.1, each_read l env p.1) refl

  -- With no limit and every group in memory, a read of the manager returns the complete groups of
  -- all shards, shard by shard, and leaves exactly the others.
  pub read_ready_groups_all :
      (s : Server W F)
      → All Plain s.manager.shards
      → read_ready_groups rt (pos 0) s ≡ (
        ok (merge_all (map (λ x. ready_of x.groups) s.manager.shards)),
        record s { manager = record s.manager { shards = map drained s.manager.shards } },
      )
  unfolding read_ready_groups map_shards truncated
  read_ready_groups_all s p = rw (each_read s.manager.shards s.env p) refl
