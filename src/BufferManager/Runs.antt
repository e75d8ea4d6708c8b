-- ===== src/BufferManager/Runs.antt =====
-- Any writes, reads without a limit, deletions and resets of server/buffer_manager.cc, one after
-- another, are a history of the contract of BufferShard/Contract on the groups of the whole server.
use transfer_queue.Prelude.{◌≡◌, refl, ap, subst, ◌∙◌, List, [], ◌∷◌, ◌++◌, map, Str}
use transfer_queue.Prelude.{ℕ}
use transfer_queue.Prelude.Int.{ℤ}
use transfer_queue.Action.{Action, Result, ok, pure, continue, ◌>>=◌}
use transfer_queue.Platform.Runtime.{Runtime, View, IsCodec, IsReliable}
use transfer_queue.Proto.{Trajectory}
use transfer_queue.BufferShard.Groups.{GroupMap}
use transfer_queue.BufferShard.Entries.{IsReordering}
use transfer_queue.BufferShard.Contract.{
  Groups, Call, put, take_ready, delete, reset_all, Reply, accepted, ready, done, Step, History,
  start, next,
}
use transfer_queue.BufferShard.Contract.Balance.{
  all_put, all_taken, trajectories_of, history_balance,
}
use transfer_queue.BufferManager.{Server, write, read_ready_groups, delete_instance, reset}
use transfer_queue.BufferManager.Serves.{
  Whole, WholeDone, WriteRoom, write-WholeDone, delete-WholeDone,
}
use transfer_queue.BufferManager.ServesAll.{Unlimited, read-WholeDone, reset-WholeDone}

-- The calls of the manager.
pub data Request (F : Type 0) : Type 0 where
  to_write : Trajectory F → Request F
  to_read : ℤ → Request F
  to_delete : Str → Request F
  to_reset : Request F

abbrev pub call_of : {F : Type 0} → Request F → Call F
call_of (to_write t) = put t
call_of (to_read n) = take_ready n
call_of (to_delete id) = delete id
call_of to_reset = reset_all

module _ {W H F : Type 0} (rt : Runtime W H F) (count : ℕ) (arrange : GroupMap F → GroupMap F) where
  unfoldable pub run_request : Request F → Action (Server W F) (Reply F)
  run_request (to_write t) = do b ← write rt count arrange t; pure (accepted b)
  run_request (to_read n) = do gs ← read_ready_groups rt n; pure (ready gs)
  run_request (to_delete id) = do _ ← delete_instance rt count id; pure done
  run_request to_reset = do _ ← reset rt count; pure done

  -- The requests as calls, with their replies.
  unfoldable pub run_requests : List (Request F) → Action (Server W F) (List (Call F × Reply F))
  run_requests [] = pure []
  run_requests (c ∷ cs) = do r ← run_request c; rs ← run_requests cs; pure ((call_of c, r) ∷ rs)

module _ {W H F : Type 0} (rt : Runtime W H F) (v : View W H) (codec : IsCodec rt)
    (reliable : IsReliable rt v) (count : ℕ) (arrange : GroupMap F → GroupMap F)
    (reorders : IsReordering arrange) where
  -- A write has room in its shard, and a read has no limit.
  abbrev pub MayRun : Request F → Server W F → Type 0
  MayRun (to_write t) s = WriteRoom rt v codec reliable count arrange reorders t s
  MayRun (to_read n) s = Unlimited n
  MayRun (to_delete id) s = Unit {0}
  MayRun to_reset s = Unit {0}

  -- So does every request of a run.
  abbrev pub MayRunAll : List (Request F) → Server W F → Type 0
  MayRunAll [] s = Unit {0}
  MayRunAll (c ∷ cs) s = MayRun c s × MayRunAll cs (run_request rt count arrange c s).1

  reply_WholeDone :
      {A : Type 0} (c : Call F) (reply : A → Reply F) (s : Server W F) (view : Groups F)
      (r : Result A × Server W F)
      → WholeDone rt v count c reply s view r
      → WholeDone rt v count c (λ x. x) s view (continue r (λ a. pure (reply a)))
  reply_WholeDone c reply s view (r, s') d = rw (d.returned) (record {
    value = reply d.value;
    after = d.after;
    returned = refl;
    step = d.step;
    whole = d.whole;
    config = d.config;
  })

  request-WholeDone :
      (c : Request F) (s : Server W F) (view : Groups F)
      → Whole rt v count s view
      → MayRun c s
      → WholeDone rt v count (call_of c) (λ x. x) s view (run_request rt count arrange c s)
  unfolding run_request
  request-WholeDone (to_write t) s view w may =
      reply_WholeDone (put t) accepted s view _
        (write-WholeDone rt v codec reliable count arrange reorders t s view w may)
  request-WholeDone (to_read n) s view w may =
      reply_WholeDone (take_ready n) ready s view _
        (read-WholeDone rt v codec reliable count n s view may w)
  request-WholeDone (to_delete id) s view w may =
      reply_WholeDone (delete id) (λ _. done) s view _
        (delete-WholeDone rt v codec reliable count id s view w)
  request-WholeDone to_reset s view w may =
      reply_WholeDone reset_all (λ _. done) s view _
        (reset-WholeDone rt v codec reliable count s view w)

  -- What a run leaves: the groups of a history of the contract.
  pub record WholeRan (size : ℤ) (requests : List (Request F)) (view : Groups F)
      (r : Result (List (Call F × Reply F)) × Server W F) : Type 0 where
    pub log : List (Call F × Reply F)
    pub after : Groups F
    pub returned : r.0 ≡ ok log
    pub calls_of : map (λ x. x.0) log ≡ map call_of requests
    pub history : History size view log after
    pub whole : Whole rt v count r.1 after

  -- On a machine where no file operation fails, every run of writes, reads without a limit,
  -- deletions and resets of the server returns, and its replies and the groups that the server keeps
  -- after it, over all its shards, are those of a history of the contract.
  pub run_requests-WholeRan :
      (size : ℤ) (requests : List (Request F)) (s : Server W F) (view : Groups F)
      → s.manager.config.group_size ≡ size
      → Whole rt v count s view
      → MayRunAll requests s
      → WholeRan size requests view (run_requests rt count arrange requests s)
  unfolding run_requests
  run_requests-WholeRan size [] s view e w may = record {
    log = [];
    after = view;
    returned = refl;
    calls_of = refl;
    history = start;
    whole = w;
  }
  run_requests-WholeRan size (c ∷ cs) s view e w may =
      let x = request-WholeDone c s view w may.0 in
      let rest =
        run_requests-WholeRan size cs (run_request rt count arrange c s).1 x.after
          (ap (λ k. k.group_size) x.config ∙ e) x.whole may.1 in
      rw (x.returned, rest.returned)
        (record {
          log = (call_of c, x.value) ∷ rest.log;
          after = rest.after;
          returned = refl;
          calls_of = ap (◌∷◌ (call_of c)) rest.calls_of;
          history =
              next (subst (λ k. Step k view x.after (call_of c) x.value) e x.step) rest.history;
          whole = rest.whole;
        })

  -- For every instance, what was in its group and what the writes appended is what was read, deleted
  -- and reset, in the same order, and then what the server still keeps.
  pub run_requests_balance :
      (size : ℤ) (requests : List (Request F)) (s : Server W F) (view : Groups F)
      → (e : s.manager.config.group_size ≡ size) → (w : Whole rt v count s view)
      → (may : MayRunAll requests s) → (q : Str)
      → let x = run_requests-WholeRan size requests s view e w may in
        trajectories_of (view q) ++ all_put q x.history
        ≡ all_taken q x.history ++ trajectories_of (x.after q)
  run_requests_balance size requests s view e w may q =
      history_balance q (run_requests-WholeRan size requests s view e w may).history
