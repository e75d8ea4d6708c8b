-- ===== src/BufferManager/Limit.antt =====
-- The limit of `read_ready_groups` of server/buffer_manager.cc.
use transfer_queue.Prelude.{
  ℕ, suc, ◌*◌, ◌^◌, ◌≤◌, ◌<◌, List, [], ◌∷◌, length, length-append, length-take, arith,
}
use transfer_queue.Prelude.Int.{pos}
use transfer_queue.Action.{Action, Result, ok, err}
use transfer_queue.Platform.Runtime.{Runtime}
use transfer_queue.DiskStorage.{Env}
use transfer_queue.BufferShard.{BufferShard, Core}
use transfer_queue.BufferShard.Read
use transfer_queue.BufferShard.Limit.{Ensures, Ensures-continue, length-read_ready_groups-le}
use transfer_queue.BufferManager.Reading.{truncated_lem}
use transfer_queue.BufferManager.{
  Server, gather, each, map_shards, merge_all, truncated, read_ready_groups,
}

length-truncated-le :
    {A : Type 0} (n : ℕ) (l : List A)
    → length l < 2 ^ 31
    → length (truncated (pos (suc n)) l) ≤ suc n
length-truncated-le n l h = rw (truncated_lem n l h) (omega (arith, length-take (suc n) l))

-- One more result of at most `n` elements.
length-gather-le :
    {A : Type 0} (n k : ℕ) (r : Result (List A)) (rs : Result (List (List A)))
    → Ensures (λ l. length l ≤ n) r
    → Ensures (λ ls. length (merge_all ls) ≤ k * n) rs
    → Ensures (λ ls. length (merge_all ls) ≤ suc k * n) (gather r rs)
unfolding merge_all
length-gather-le n k (err e) rs h hs = tt
length-gather-le n k (ok l) (err e) h hs = tt
length-gather-le n k (ok l) (ok ls) h hs = omega (arith, length-append l (merge_all ls), h, hs)

module _ {W F : Type 0} where
  length-each-le :
      {A : Type 0} (n : ℕ) (m : Action (Core W F) (List A))
      → ((core : Core W F) → Ensures (λ l. length l ≤ n) (m core).0)
      → (l : List (BufferShard F)) (env : Env W)
      → Ensures (λ ls. length (merge_all ls) ≤ length l * n) (each m l env).0
  unfolding each merge_all
  length-each-le n m f [] env = omega arith
  length-each-le n m f (s ∷ l) env =
      let r = m (record { shard = s; env = env }) in
      length-gather-le n (length l) r.0 (each m l r.1.env).0 (f (record { shard = s; env = env }))
        (length-each-le n m f l r.1.env)

module _ {W H F : Type 0} (rt : Runtime W H F) where
  -- With a positive limit that fits an int32_t, and fewer than 2^31 groups if every shard returns
  -- that many, a read of the manager that returns groups returns at most as many as the limit,
  -- whatever the shards hold and whatever fails.
  pub length-read_limited :
      (n : ℕ) (s : Server W F)
      → suc n < 2 ^ 31
      → length s.manager.shards * suc n < 2 ^ 31
      → Ensures (λ gs. length gs ≤ suc n) (read_ready_groups rt (pos (suc n)) s).0
  unfolding read_ready_groups map_shards
  length-read_limited n s b total =
      Ensures-continue (λ ls. length (merge_all ls) ≤ length s.manager.shards * suc n)
        (λ gs. length gs ≤ suc n) (map_shards (Read.read_ready_groups rt (pos (suc n))) s) _
        (length-each-le (suc n) (Read.read_ready_groups rt (pos (suc n)))
          (λ core. length-read_ready_groups-le rt (suc n) core (omega arith) b) s.manager.shards
          s.env)
        (λ ls t h. length-truncated-le n (merge_all ls) (omega (arith, h, total)))
