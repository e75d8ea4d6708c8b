-- ===== src/BufferManager/RunTests.antt =====
-- A run of a server of server/buffer_manager.cc with two shards on a machine in memory.
use transfer_queue.Prelude.{
  true, ℕ, ◌≡◌, ◌≢◌, refl, ap, subst, List, [], ◌∷◌, ◌++◌, none, some_injective, Str, arith,
}
use transfer_queue.Prelude.Int.{pos}
use transfer_queue.Config.{default_config}
use transfer_queue.Platform.Fixed.{fixed}
use transfer_queue.Platform.Codec.{serialize}
use transfer_queue.Platform.Sample.{Machine, machine, seen, machine-IsCodec, machine-IsReliable}
use transfer_queue.DedupFilter
use transfer_queue.DedupFilter.History.{make-IsValid}
use transfer_queue.BufferShard.{BufferShard}
use transfer_queue.BufferShard.Groups.{find, new_group}
use transfer_queue.DiskStorage.{file_name}
use transfer_queue.BufferShard.Runs.{HasRoom}
use transfer_queue.BufferShard.Contract.{put}
use transfer_queue.BufferShard.Contract.Balance.{trajectories_of, all_put, all_taken}
use transfer_queue.BufferShard.Sound.{Sound}
use transfer_queue.BufferShard.Sample.{arrange, arrange-IsReordering}
use transfer_queue.BufferManager.{Server, shard_for, start, map_shards, each, build_shards}
use transfer_queue.BufferManager.Sample.{trajectory, id_i, id_jj}
use transfer_queue.BufferManager.Whole.{part}
use transfer_queue.BufferManager.Serves.{Whole}
use transfer_queue.BufferManager.Started.{nothing, part-nothing, start-Whole, start_balance}
use transfer_queue.BufferManager.Directories.{NoSlash}
use transfer_queue.DiskStorage
use transfer_queue.BufferShard
use transfer_queue.Action.{ok}
use transfer_queue.BufferManager.Runs.{
  Request, to_write, to_read, to_delete, to_reset, MayRunAll, WholeRan, run_requests,
  run_requests-WholeRan,
}

-- A shard with its own directory.
abbrev shard_in : ℕ → BufferShard ℕ
shard_in c = record {
  dedup_filter = DedupFilter.make fixed 2 10;
  disk_storage = record { bdev_name = c ∷ []; initialized = true };
  groups = [];
  total_trajectories = 0;
  total_consumed = 0;
  disk_usage_bytes = pos 0;
}

abbrev fresh : Server Machine ℕ
fresh = record {
  manager = record { config = default_config fixed; shards = shard_in b'd' ∷ shard_in b'e' ∷ [] };
  env = record { counter = 0; world = record { files = λ q. none; clock = 41 } };
}

empty-Sound :
    (c k : ℕ)
    → Sound machine seen (record { shard = shard_in c; env = fresh.env }) (part machine 2 k nothing)
unfolding find
empty-Sound c k =
    subst (Sound machine seen (record { shard = shard_in c; env = fresh.env }))
      (part-nothing machine 2 k)
      (record {
        initialized = refl;
        valid = (make-IsValid machine.hash fixed 2 10).0;
        represents = record { keyed = tt; matches = λ q. tt };
        named = λ q g h. absurd (ground (arith, h));
        fits = λ q g h. absurd (ground (arith, h));
      })

head_of : Str → ℕ
head_of [] = 0
head_of (c ∷ s) = c

heads_differ :
    (c k : ℕ)
    → c ≢ k
    → (m n : ℕ)
    → file_name machine (shard_in c).disk_storage m ≢ file_name machine (shard_in k).disk_storage n
unfolding head_of
heads_differ c k differ m n e = differ (ap head_of e)

fresh-Whole : Whole machine seen 2 fresh nothing
fresh-Whole = record {
  positive = omega arith;
  size = refl;
  sound = (empty-Sound b'd' 0, (empty-Sound b'e' 1, tt));
  apart = (
    (
      (
        heads_differ b'd' b'e' (λ e. absurd (omega (arith, e))),
        heads_differ b'e' b'd' (λ e. absurd (omega (arith, e))),
      ),
      tt,
    ),
    (tt, tt),
  );
}

abbrev requests : List (Request ℕ)
requests = to_write (trajectory id_i) ∷ to_read (pos 0) ∷ to_delete id_jj ∷ to_reset ∷ []

may :
    MayRunAll machine seen machine-IsCodec machine-IsReliable 2 arrange arrange-IsReordering
      requests fresh
unfolding shard_for serialize find new_group default_config
may = (
  λ shard found.
      subst
        (λ x.
          HasRoom machine arrange fresh.manager.config seen (put (trajectory id_i))
            (record { shard = x; env = fresh.env }))
        (some_injective found) ((_, refl, omega arith), omega arith),
  (tt, (tt, (tt, tt))),
)

run_requests-WholeRan_example :
    WholeRan machine seen machine-IsCodec machine-IsReliable 2 arrange arrange-IsReordering
      fresh.manager.config.group_size requests nothing
      (run_requests machine 2 arrange requests fresh)
run_requests-WholeRan_example =
    run_requests-WholeRan machine seen machine-IsCodec machine-IsReliable 2 arrange
      arrange-IsReordering fresh.manager.config.group_size requests fresh nothing refl fresh-Whole
      may

-- The server before its start.
abbrev stopped : Server Machine ℕ
stopped = record fresh { manager = record fresh.manager { shards = [] } }

digits : (n : ℕ) → NoSlash (machine.to_string n)
digits n = ((λ e. absurd (omega (arith, e))), tt)

started : (start machine 2 stopped).0 ≡ ok tt
unfolding start map_shards each build_shards BufferShard.start DiskStorage.init
started = refl

may_start :
    MayRunAll machine seen machine-IsCodec machine-IsReliable 2 arrange arrange-IsReordering
      requests
      (start machine 2 stopped).1
unfolding shard_for serialize find new_group default_config start map_shards each build_shards
    BufferShard.start DiskStorage.init BufferShard.make
may_start = (
  λ shard found.
      subst
        (λ x.
          HasRoom machine arrange fresh.manager.config seen (put (trajectory id_i))
            (record { shard = x; env = (start machine 2 stopped).1.env }))
        (some_injective found) ((_, refl, omega arith), omega arith),
  (tt, (tt, (tt, tt))),
)

start_balance_example :
    let x =
      run_requests-WholeRan machine seen machine-IsCodec machine-IsReliable 2 arrange
        arrange-IsReordering _ requests
        (start machine 2 stopped).1
        nothing
        refl
        (start-Whole machine seen 2 stopped (omega arith) machine-IsCodec digits started)
        may_start in
    all_put id_i x.history ≡ all_taken id_i x.history ++ trajectories_of (x.after id_i)
start_balance_example =
    start_balance machine seen machine-IsCodec machine-IsReliable 2 arrange arrange-IsReordering
      requests stopped (omega arith) digits started may_start id_i
