-- ===== src/BufferManager/Reach.antt =====
-- The states that a manager of server/buffer_manager.cc reaches, and the routing in all of them.
use native.Mathlib.Nat.{mod-lt}
use mathlib.Core.List.{Permᴰ}
use transfer_queue.Prelude.{ℕ, ◌<◌, refl, All, List, [], ◌∷◌, Str}
use transfer_queue.Prelude.Int.{ℤ}
use transfer_queue.Platform.Runtime.{Runtime}
use transfer_queue.Config.{TransferQueueConfig}
use transfer_queue.Proto.{Trajectory, ConfigRequest}
use transfer_queue.DiskStorage.{Env}
use transfer_queue.BufferShard.Groups.{GroupMap}
use transfer_queue.BufferShard.Entries.{IsReordering}
use transfer_queue.BufferShard.Keys.{continue_lem, write-Owns}
use transfer_queue.BufferShard.KeptKeys.{
  delete_instance-Owns, reset-Owns, read_ready_groups-Owns, batch_write-Owns,
}
use transfer_queue.BufferShard.Write
use transfer_queue.BufferShard.Read
use transfer_queue.BufferShard.Manage
use transfer_queue.BufferManager.{
  Server, Batches, map_shards, shard_for, by_shard, submit, start, write, batch_write,
  read_ready_groups, delete_instance, reset, update_config,
}
use transfer_queue.BufferManager.Ownership.{Misplaced}
use transfer_queue.BufferManager.Sharded.{
  IsSharded, IsBatch, map_shards-IsSharded, invoke_on-IsSharded, after-IsSharded, start-IsSharded,
  by_shard-IsBatch, All-perm, All-own,
}

module _ {W H F : Type 0} (rt : Runtime W H F) (count : ℕ) (arrange : GroupMap F → GroupMap F)
    (order : Batches F → Batches F) where
  -- `arrange` and `order` change nothing but an order.
  module _ (reorders : IsReordering arrange)
      (reorders_batches : (l : Batches F) → Permᴰ l (order l)) where
    submit-IsSharded :
        (cfg : TransferQueueConfig F) (l : Batches F) (s : Server W F)
        → All (IsBatch rt count) l
        → IsSharded rt count s.manager
        → IsSharded rt count (submit rt count arrange cfg l s).1.manager
    unfolding submit
    submit-IsSharded cfg [] s p h = h
    submit-IsSharded cfg ((sid, b) ∷ l) s p h = submit-IsSharded cfg l _ p.1 (
        invoke_on-IsSharded rt count sid (Write.batch_write rt arrange cfg b) s p.0.0
          (λ core o.
            batch_write-Owns rt (Misplaced rt count sid) arrange reorders cfg b core
              (All-own rt count sid b p.0.1) o)
          h)

    -- The calls of a manager that runs, which has not been stopped; the pauses of a blocking read only change what is around it.
    pub data Call : Server W F → Server W F → Type 0 where
      writing : (t : Trajectory F) (s : Server W F) → Call s (write rt count arrange t s).1
      batch_writing :
          (ts : List (Trajectory F)) (s : Server W F)
          → Call s (batch_write rt count arrange order ts s).1
      reading : (max_groups : ℤ) (s : Server W F) → Call s (read_ready_groups rt max_groups s).1
      deleting : (id : Str) (s : Server W F) → Call s (delete_instance rt count id s).1
      resetting : (s : Server W F) → Call s (reset rt count s).1
      configuring :
          (req : ConfigRequest F) (s : Server W F)
          → Call s (record s { manager = update_config rt.double req s.manager })
      passing : (env : Env W) (s : Server W F) → Call s (record s { env = env })

    pub data Reachable : Server W F → Type 0 where
      started : (s : Server W F) → Reachable (start rt count s).1
      then : {s t : Server W F} → Reachable s → Call s t → Reachable t

    Call-IsSharded :
        {s t : Server W F}
        → 0 < count
        → Call s t
        → IsSharded rt count s.manager
        → IsSharded rt count t.manager
    unfolding write batch_write read_ready_groups delete_instance reset update_config shard_for
    Call-IsSharded h (writing t s) w =
        invoke_on-IsSharded rt count (shard_for rt count t.instance_id)
          (Write.write rt arrange s.manager.config t) s (mod-lt _ h)
          (λ core o.
            write-Owns rt _ arrange reorders s.manager.config t core (λ foreign. foreign refl) o)
          w
    Call-IsSharded h (batch_writing ts s) w =
        continue_lem (λ x. IsSharded rt count x.manager)
          (submit rt count arrange s.manager.config (order (by_shard rt count ts [])) s) _
          (submit-IsSharded s.manager.config (order (by_shard rt count ts [])) s
            (All-perm rt count (IsBatch rt count) (reorders_batches _)
              (by_shard-IsBatch rt count ts [] h tt))
            w)
          (λ r x p. p)
    Call-IsSharded h (reading n s) w =
        continue_lem (λ x. IsSharded rt count x.manager)
          (map_shards (Read.read_ready_groups rt n) s) _
          (map_shards-IsSharded rt count (Read.read_ready_groups rt n) s
            (λ i core o. read_ready_groups-Owns rt _ n core o) w)
          (λ r x p. p)
    Call-IsSharded h (deleting id s) w =
        invoke_on-IsSharded rt count (shard_for rt count id) (Manage.delete_instance rt id) s
          (mod-lt _ h) (λ core o. delete_instance-Owns rt _ id core o) w
    Call-IsSharded h (resetting s) w =
        after-IsSharded rt count _
          (map_shards-IsSharded rt count (Manage.reset rt) s (λ i core o. reset-Owns rt _ core) w)
    Call-IsSharded h (configuring req s) w = record {
      size = w.size;
      routed = record { owned = w.routed.owned };
    }
    Call-IsSharded h (passing env s) w = w

    -- In every state that a manager reaches from a start, until it is stopped, by any writes, batch
    -- writes, reads, deletions, resets, changes of the configuration and changes of the machine around
    -- it, whatever fails in them, there is a shard for each core, every instance is on the shard that
    -- its id routes to, and no shard holds a key twice.
    pub Reachable-IsSharded :
        {s : Server W F} → 0 < count → Reachable s → IsSharded rt count s.manager
    Reachable-IsSharded h (started s) = start-IsSharded rt count s
    Reachable-IsSharded h (then r c) = Call-IsSharded h c (Reachable-IsSharded h r)
