-- ===== src/BufferShard/Contract/Answers.antt =====
-- Which writes a shard of server/buffer_shard.cc refuses, in its contract: those with a uid among
-- the most recent ones.
use transfer_queue.Prelude.{ℕ, ◌≡◌, subst, Bool, true, not, List, [], ◌∷◌, Str, if◌then◌else◌}
use transfer_queue.DedupFilter.Order.{member}
use transfer_queue.DedupFilter.Refines.{lru_insert}
use transfer_queue.BufferShard.Contract.{
  Call, put, take_ready, delete, check_timeouts, reset_all, Reply, accepted,
}

-- `dedup` tells whether uids are checked, and `cap` how many are remembered.
module _ {F : Type 0} (dedup : Bool) where
  -- A write is accepted unless its uid is remembered.
  abbrev pub Answer : List Str → Call F → Reply F → Type 0
  Answer uids (put t) r = r ≡ accepted (if dedup then not (member t.uid uids) else true)
  Answer uids (take_ready n) r = Unit {0}
  Answer uids (delete id) r = Unit {0}
  Answer uids check_timeouts r = Unit {0}
  Answer uids reset_all r = Unit {0}

  module _ (cap : ℕ) where
    -- The uids that are remembered after a call, newest first.
    abbrev pub remembered : Call F → List Str → List Str
    remembered (put t) uids = if dedup then (lru_insert cap uids t.uid).0 else uids
    remembered reset_all uids = []
    remembered (take_ready n) uids = uids
    remembered (delete id) uids = uids
    remembered check_timeouts uids = uids

    -- All answers of a run.
    abbrev pub Answers : List Str → List (Call F × Reply F) → Type 0
    Answers uids [] = Unit {0}
    Answers uids ((c, r) ∷ log) = Answer uids c r × Answers (remembered c uids) log

  pub Answers-same :
      {cap cap' : ℕ} {uids uids' : List Str} (log : List (Call F × Reply F))
      → cap ≡ cap'
      → uids ≡ uids'
      → Answers cap uids log
      → Answers cap' uids' log
  Answers-same {cap} {uids'} log p q h =
      subst (λ k. Answers k uids' log) p (subst (λ l. Answers cap l log) q h)
