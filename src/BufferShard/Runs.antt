-- ===== src/BufferShard/Runs.antt =====
-- Any writes, reads, deletions, timeout checks and resets of a shard of server/buffer_shard.cc, one
-- after another, are a history of the contract.
use transfer_queue.Prelude.{
  suc, ◌+◌, ◌^◌, ◌<◌, ◌≡◌, refl, sym, ap, ◌∙◌, Bool-cases, inl, inr, if◌then◌else◌, List, [], ◌∷◌,
  ◌++◌, map, Str, length,
}
use transfer_queue.Action.{Action, Result, ok, pure, ◌>>=◌}
use transfer_queue.Config.{TransferQueueConfig}
use transfer_queue.Platform.Runtime.{Runtime, View, IsCodec, IsReliable}
use transfer_queue.BufferShard.{Core}
use transfer_queue.BufferShard.Groups.{GroupMap}
use transfer_queue.BufferShard.Entries.{IsReordering}
use transfer_queue.BufferShard.Write.{write}
use transfer_queue.BufferShard.Read.{read_ready_groups}
use transfer_queue.BufferShard.Manage.{delete_instance, check_group_timeouts, reset}
use transfer_queue.BufferShard.Contract.{
  Groups, Call, put, take_ready, delete, check_timeouts, reset_all, Reply, accepted, ready, done,
  Step, emptied, History, start, next, total_after, consumed_after, consumed_after-put, after-read,
  after-delete, after-timeouts, total_of, consumed_of,
}
use transfer_queue.BufferShard.Contract.Answers.{Answer, Answers, remembered, Answers-same}
use transfer_queue.BufferShard.Accepts.{checked}
use transfer_queue.BufferShard.ResetStep.{no_groups, reset-ResetDone}
use transfer_queue.DedupFilter.{DedupFilter}
use transfer_queue.DedupFilter.Refines.{IsValid, held, lru_insert, insert-Inserted}
use transfer_queue.BufferShard.Contract.Balance.{
  all_put, all_taken, trajectories_of, history_balance,
}
use transfer_queue.BufferShard.Sound.{Sound}
use transfer_queue.BufferShard.Reads.{read-ReadDone}
use transfer_queue.BufferShard.WriteStep.{StaysFit, write-WriteDone}
use transfer_queue.BufferShard.DeleteStep.{delete-DeleteDone}
use transfer_queue.BufferShard.TimeoutStep.{ClosesFit, check_group_timeouts-TimeoutDone}

module _ {W H F : Type 0} (rt : Runtime W H F) (arrange : GroupMap F → GroupMap F)
    (cfg : TransferQueueConfig F) where
  unfoldable pub run_call : Call F → Action (Core W F) (Reply F)
  run_call (put t) = do b ← write rt arrange cfg t; pure (accepted b)
  run_call (take_ready n) = do gs ← read_ready_groups rt n; pure (ready gs)
  run_call (delete id) = do _ ← delete_instance rt id; pure done
  run_call check_timeouts = do _ ← check_group_timeouts rt cfg; pure done
  run_call reset_all = do _ ← reset rt; pure done

  -- The calls with their replies.
  unfoldable pub run_calls : List (Call F) → Action (Core W F) (List (Call F × Reply F))
  run_calls [] = pure []
  run_calls (c ∷ cs) = do r ← run_call c; rs ← run_calls cs; pure ((c, r) ∷ rs)

  module _ (v : View W H) where
    -- The groups that a call changes stay small enough to be read from disk, and `counter` does not
    -- wrap.
    abbrev pub HasRoom : Call F → Core W F → Type 0
    HasRoom (put t) core =
        StaysFit rt v cfg t core × (core.env.counter + suc (length core.shard.groups) < 2 ^ 63)
    HasRoom check_timeouts core = ClosesFit rt v core.shard.groups
    HasRoom _ core = Unit {0}

    -- So does every call of a run.
    abbrev pub HaveRoom : List (Call F) → Core W F → Type 0
    HaveRoom [] core = Unit {0}
    HaveRoom (c ∷ cs) core = HasRoom c core × HaveRoom cs (run_call c core).1

module _ {W H F : Type 0} (rt : Runtime W H F) (v : View W H) (codec : IsCodec rt)
    (reliable : IsReliable rt v) (arrange : GroupMap F → GroupMap F)
    (reorders : IsReordering arrange) (cfg : TransferQueueConfig F) where
  -- What the duplicate check leaves is what the contract of the filter leaves.
  checked_lem :
      (cfg : TransferQueueConfig F) (uid : Str) (f : DedupFilter F)
      → IsValid rt.hash f
      → (held (checked rt cfg uid f)
          ≡ (if cfg.uid_dedup then (lru_insert f.max_size (held f) uid).0 else held f))
        × ((checked rt cfg uid f).max_size ≡ f.max_size)
  checked_lem cfg uid f valid = elim (Bool-cases cfg.uid_dedup) [
    | inl on ↦
        let i = insert-Inserted rt.hash f uid valid in rw (on) (ap (λ x. x.0) i.refines, i.max_size)
    | inr off ↦ rw (off) (refl, refl)
  ]

  -- One call that is a step of the contract.
  record CallDone (c : Call F) (core : Core W F) (view : Groups F) (r : Result (Reply F) × Core W F)
      : Type 0 where
    reply : Reply F
    after : Groups F
    returned : r.0 ≡ ok reply
    step : Step cfg.group_size view after c reply
    sound : Sound rt v r.1 after
    answer : Answer cfg.uid_dedup (held core.shard.dedup_filter) c reply
    capacity : r.1.shard.dedup_filter.max_size ≡ core.shard.dedup_filter.max_size
    uids :
        held r.1.shard.dedup_filter
        ≡ remembered cfg.uid_dedup core.shard.dedup_filter.max_size c (held core.shard.dedup_filter)
    total : r.1.shard.total_trajectories ≡ total_after step core.shard.total_trajectories
    consumed : r.1.shard.total_consumed ≡ consumed_after step core.shard.total_consumed

  call_done :
      (c : Call F) (core : Core W F) (view : Groups F)
      → Sound rt v core view
      → HasRoom rt arrange cfg v c core
      → CallDone c core view (run_call rt arrange cfg c core)
  unfolding run_call total_after consumed_after
  call_done (put t) core view s room =
      let w =
        write-WriteDone rt v codec reliable arrange reorders cfg t core view s room.0 room.1 in
      rw (w.returned) (record {
        reply = accepted w.reply;
        after = w.after;
        returned = refl;
        step = w.step;
        sound = w.sound;
        total = w.total;
        answer = w.answer;
        capacity = ap (λ f. f.max_size) w.filter ∙ (checked_lem cfg t.uid _ s.valid).1;
        uids = ap held w.filter ∙ (checked_lem cfg t.uid _ s.valid).0;
        consumed = w.consumed ∙ sym (consumed_after-put _ w.step);
      })
  call_done (take_ready n) core view s room =
      let x = read-ReadDone rt v codec reliable cfg.group_size n core view s in
      rw (x.returned) (record {
        reply = ready x.groups;
        after = x.after;
        returned = refl;
        step = x.step;
        sound = x.sound;
        answer = tt;
        capacity = ap (λ f. f.max_size) x.filter;
        uids = ap held x.filter;
        total = x.total ∙ sym (after-read _ x.step).0;
        consumed = x.consumed ∙ sym (after-read _ x.step).1;
      })
  call_done (delete id) core view s room =
      let x = delete-DeleteDone rt v codec reliable cfg.group_size id core view s in
      rw (x.returned) (record {
        reply = done;
        after = _;
        returned = refl;
        step = x.step;
        sound = x.sound;
        answer = tt;
        capacity = ap (λ f. f.max_size) x.filter;
        uids = ap held x.filter;
        total = x.total ∙ sym (after-delete _ x.step).0;
        consumed = x.consumed ∙ sym (after-delete _ x.step).1;
      })
  call_done check_timeouts core view s room =
      let x =
        check_group_timeouts-TimeoutDone rt v codec reliable arrange reorders cfg.group_size cfg
          core view s room in
      rw (x.returned) (record {
        reply = done;
        after = x.after;
        returned = refl;
        step = x.step;
        sound = x.sound;
        answer = tt;
        capacity = ap (λ f. f.max_size) x.filter;
        uids = ap held x.filter;
        total = x.total ∙ sym (after-timeouts _ x.step).0;
        consumed = x.consumed ∙ sym (after-timeouts _ x.step).1;
      })
  call_done reset_all core view s room =
      let x = reset-ResetDone rt v codec reliable core view s in
      rw (x.returned) (record {
        reply = done;
        after = no_groups rt v codec reliable;
        returned = refl;
        step = emptied (λ q. refl);
        sound = x.sound;
        answer = tt;
        capacity = x.capacity;
        uids = x.forgotten;
        total = x.total;
        consumed = x.consumed;
      })

  -- What a run leaves: the groups of a history of the contract.
  pub record Ran (calls : List (Call F)) (core : Core W F) (view : Groups F)
      (r : Result (List (Call F × Reply F)) × Core W F) : Type 0 where
    pub log : List (Call F × Reply F)
    pub after : Groups F
    pub returned : r.0 ≡ ok log
    pub calls_of : map (λ x. x.0) log ≡ calls
    pub history : History cfg.group_size view log after
    pub sound : Sound rt v r.1 after
    pub answers :
        Answers cfg.uid_dedup core.shard.dedup_filter.max_size (held core.shard.dedup_filter) log
    pub total : r.1.shard.total_trajectories ≡ total_of history core.shard.total_trajectories
    pub consumed : r.1.shard.total_consumed ≡ consumed_of history core.shard.total_consumed

  -- On a machine where no file operation fails, every run of writes, reads, deletions, timeout
  -- checks and resets returns; its replies and the groups that the shard keeps after it are those
  -- of a history of the contract; a write is refused exactly if its uid is among the remembered
  -- ones; and the two totals are those of the history.
  pub run_calls-Ran :
      (calls : List (Call F)) (core : Core W F) (view : Groups F)
      → Sound rt v core view
      → HaveRoom rt arrange cfg v calls core
      → Ran calls core view (run_calls rt arrange cfg calls core)
  unfolding run_calls total_of consumed_of
  run_calls-Ran [] core view s room = record {
    log = [];
    after = view;
    returned = refl;
    calls_of = refl;
    history = start;
    sound = s;
    answers = tt;
    total = refl;
    consumed = refl;
  }
  run_calls-Ran (c ∷ cs) core view s room =
      let x = call_done c core view s room.0 in
      let rest = run_calls-Ran cs (run_call rt arrange cfg c core).1 x.after x.sound room.1 in
      rw (x.returned, rest.returned)
        (record {
          log = (c, x.reply) ∷ rest.log;
          after = rest.after;
          returned = refl;
          calls_of = ap (◌∷◌ c) rest.calls_of;
          history = next x.step rest.history;
          sound = rest.sound;
          answers = (x.answer, Answers-same cfg.uid_dedup rest.log x.capacity x.uids rest.answers);
          total = rest.total ∙ ap (total_of rest.history) x.total;
          consumed = rest.consumed ∙ ap (consumed_of rest.history) x.consumed;
        })

  -- For every instance, what was in its group and what the writes appended is what was read,
  -- deleted and reset, in the same order, and then what is still there.
  pub run_calls_balance :
      (calls : List (Call F)) (core : Core W F) (view : Groups F)
      → (s : Sound rt v core view) → (room : HaveRoom rt arrange cfg v calls core) → (q : Str)
      → let x = run_calls-Ran calls core view s room in
        trajectories_of (view q) ++ all_put q x.history
        ≡ all_taken q x.history ++ trajectories_of (x.after q)
  run_calls_balance calls core view s room q =
      history_balance q (run_calls-Ran calls core view s room).history
