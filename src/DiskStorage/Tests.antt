-- ===== src/DiskStorage/Tests.antt =====
-- The storage of server/disk_storage.cc on a machine in memory.
use transfer_queue.Prelude.{ℕ, ◌≡◌, refl, true, List, [], ◌∷◌, none, some, Str, arith}
use transfer_queue.Prelude.Int.{pos}
use transfer_queue.Action.{ok}
use transfer_queue.Platform.Codec.{serialize}
use transfer_queue.Platform.Sample.{Machine, machine, seen, machine-IsCodec, machine-IsReliable}
use transfer_queue.Proto.{Trajectory, TrajectoryGroup}
use transfer_queue.DiskStorage.{DiskStorage, Env, spill, spill_batch, load}
use transfer_queue.DiskStorage.RoundTrip.{loaded, load-spill}
use transfer_queue.DiskStorage.Batch.{Batch, spill_batch-Batch}

abbrev storage : DiskStorage
storage = record { bdev_name = b'd' ∷ []; initialized = true }

abbrev trajectory : Trajectory ℕ
trajectory = record {
  uid = b'u' ∷ [];
  instance_id = b'i' ∷ [];
  messages = [];
  reward = 1000;
  extra_info = [];
}

abbrev group : TrajectoryGroup ℕ
group = record {
  instance_id = b'i' ∷ [];
  trajectories = trajectory ∷ [];
  group_size = pos 1;
  is_complete = true;
}

abbrev body : Str
body = 1 ∷ 1 ∷ 0 ∷ 1 ∷ 1 ∷ b'i' ∷ 1 ∷ 1 ∷ b'u' ∷ 1 ∷ b'i' ∷ 1000 ∷ 0 ∷ []

abbrev booted : Env Machine
booted = record { counter = 0; world = record { files = λ q. none; clock = 41 } }

body_lem : serialize group ≡ some body
unfolding serialize
body_lem = refl

load-spill_example :
    (id : ℕ) × ((spill machine storage group booted).0 ≡ ok id)
    × ((load machine storage id (spill machine storage group booted).1.world).0 ≡ loaded 13 group)
load-spill_example =
    load-spill machine seen machine-IsReliable storage group body booted
      (spill machine storage group booted).1.world machine-IsCodec refl body_lem (omega arith)
      (λ q. refl)

spill_batch-Batch_example :
    (ids : List ℕ) × Batch machine seen storage booted
      (group ∷ group ∷ [])
      ids
      (spill_batch machine storage (group ∷ group ∷ []) booted)
spill_batch-Batch_example =
    spill_batch-Batch machine seen storage machine-IsCodec machine-IsReliable refl
      (group ∷ group ∷ []) booted (((body, body_lem)), (((body, body_lem)), tt)) (omega arith)
