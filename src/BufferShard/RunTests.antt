-- ===== src/BufferShard/RunTests.antt =====
-- Runs of a shard of server/buffer_shard.cc on a machine in memory.
use transfer_queue.Prelude.{
  true, ℕ, ◌≡◌, refl, subst, [], ◌∷◌, ◌++◌, List, some, Str, Str-discrete, ℕ_discrete, arith,
}
use transfer_queue.Prelude.Int.{pos}
use transfer_queue.Platform.Codec.{serialize}
use transfer_queue.Platform.Sample.{machine, seen, machine-IsCodec, machine-IsReliable}
use transfer_queue.Proto.{TrajectoryGroup}
use transfer_queue.BufferShard.Groups.{find, is_complete}
use transfer_queue.BufferShard.DeleteStep.{DeleteDone, delete-DeleteDone}
use transfer_queue.BufferShard.Manage.{delete_instance, check_group_timeouts, expire, expire_entry}
use transfer_queue.BufferShard.Contract.{Call, put, take_ready, delete, check_timeouts, reset_all}
use transfer_queue.BufferShard.Contract.Balance.{trajectories_of, all_put, all_taken}
use transfer_queue.BufferShard.Filed.{Fit}
use transfer_queue.BufferShard.Sound.{Sound}
use transfer_queue.BufferShard.Reads.{ReadDone, read-ReadDone}
use transfer_queue.BufferShard.TimeoutStep.{ClosesFit}
use transfer_queue.BufferShard.Read.{read_ready_groups}
use transfer_queue.BufferShard.Runs.{
  run_call, run_calls, HaveRoom, Ran, run_calls-Ran, run_calls_balance,
}
use transfer_queue.BufferShard.Sample.{
  id_i, id_j, trajectory, group, cfg, filter-IsValid, arrange, arrange-IsReordering, one_group,
  view_of_one, one_group-Represents,
}

group-Fit : Fit machine seen group
unfolding serialize
group-Fit = (_, refl, omega arith)

one_group-holds :
    (P : Str → TrajectoryGroup ℕ → Type 0)
    → P id_i group
    → (q : Str) (g : TrajectoryGroup ℕ) → view_of_one q ≡ some g
    → P q g
one_group-holds P h q g e = elim (Str-discrete q id_i) [
  | yes p ↦
      let same : group ≡ g = ground (arith, p, e) in
      let key : id_i ≡ q = ground (arith, p) in subst (P q) same (subst (λ k. P k group) key h)
  | no n ↦ absurd (ground (arith, n, e))
]

one_group-Sound : Sound machine seen one_group view_of_one
one_group-Sound = record {
  initialized = refl;
  valid = filter-IsValid;
  represents = one_group-Represents;
  named = one_group-holds (λ q g. g.instance_id ≡ q) refl;
  fits = one_group-holds (λ q g. Fit machine seen g) group-Fit;
}

-- A check of the timeouts, a write, which spills the group, a read, which loads it, a
-- deletion and a reset.
abbrev calls : List (Call ℕ)
calls = check_timeouts ∷ put trajectory ∷ take_ready (pos 0) ∷ delete id_j ∷ reset_all ∷ []

one_group_closes : ClosesFit machine seen one_group.shard.groups
one_group_closes = (
  λ g p.
      let same : group ≡ g = ground (arith, p) in
      subst (λ x. Fit machine seen (record x { is_complete = true })) same group-Fit,
  tt,
)

calls_room : HaveRoom machine arrange cfg seen calls one_group
unfolding serialize find Str-discrete ℕ_discrete run_call check_group_timeouts expire expire_entry
    is_complete
calls_room = (one_group_closes, (((_, refl, omega arith), omega arith), (tt, (tt, (tt, tt)))))

run_calls-Ran_example :
    Ran machine seen machine-IsCodec machine-IsReliable arrange arrange-IsReordering cfg calls
      one_group view_of_one
      (run_calls machine arrange cfg calls one_group)
run_calls-Ran_example =
    run_calls-Ran machine seen machine-IsCodec machine-IsReliable arrange arrange-IsReordering cfg
      calls one_group view_of_one one_group-Sound calls_room

run_calls_balance_example :
    let x =
      run_calls-Ran machine seen machine-IsCodec machine-IsReliable arrange arrange-IsReordering cfg
        calls one_group view_of_one one_group-Sound calls_room in
    trajectories_of (view_of_one id_i) ++ all_put id_i x.history
    ≡ all_taken id_i x.history ++ trajectories_of (x.after id_i)
run_calls_balance_example =
    run_calls_balance machine seen machine-IsCodec machine-IsReliable arrange arrange-IsReordering
      cfg calls one_group view_of_one one_group-Sound calls_room id_i

read-ReadDone_example :
    ReadDone machine seen machine-IsCodec machine-IsReliable cfg.group_size
      (pos 1)
      one_group
      view_of_one
      (read_ready_groups machine (pos 1) one_group)
read-ReadDone_example =
    read-ReadDone machine seen machine-IsCodec machine-IsReliable cfg.group_size (pos 1) one_group
      view_of_one one_group-Sound

delete-DeleteDone_example :
    DeleteDone machine seen machine-IsCodec machine-IsReliable cfg.group_size id_i one_group
      view_of_one
      (delete_instance machine id_i one_group)
delete-DeleteDone_example =
    delete-DeleteDone machine seen machine-IsCodec machine-IsReliable cfg.group_size id_i one_group
      view_of_one one_group-Sound
