-- ===== src/Examples.antt =====
-- examples/write_example.cc, read_example.cc and status_example.cc: what each program does with its
-- client, and what it logs. `S` is the state of everything on the other side of the network.
pub mod Texts
pub mod Runs
mod Tests
use transfer_queue.Prelude.{ℕ, ◌+◌, length, Bool, true, false, List, [], ◌∷◌, Str}
use transfer_queue.Prelude.Int.{ℤ, pos}
use transfer_queue.Action.{Action, Result, Error, ok, err, pure, continue, ◌>>=◌, ◌>>◌}
use transfer_queue.Platform.{Double}
use transfer_queue.Platform.Message.{Formats}
use transfer_queue.Proto.{Trajectory, TrajectoryGroup, BufferStatus}
use transfer_queue.RpcHandler.{Verb}
use transfer_queue.Client
use transfer_queue.Client.{TransferQueueClient, Session, make, connect, close}
use Texts.{
  localhost, sample_uid, sample_instance, system_role, user_role, assistant_role, system_content,
  user_content, assistant_content,
}

-- The trajectory that the write example builds.
abbrev pub sample_trajectory : {F : Type 0} → Double F → Trajectory F
sample_trajectory d = record {
  uid = sample_uid;
  instance_id = sample_instance;
  messages =
      record { role = system_role; content = system_content }
      ∷ record { role = user_role; content = user_content }
      ∷ record { role = assistant_role; content = assistant_content }
      ∷ [];
  reward = d.decimal 85 2;
  extra_info = [];
}

-- A trajectory in the log of the read example, with its place in its group.
pub record TrajectoryLine (F : Type 0) : Type 0 where
  pub index : ℕ
  pub uid : Str
  pub reward : F

-- A group in that log, with its trajectories.
pub record GroupLine (F : Type 0) : Type 0 where
  pub index : ℕ
  pub instance_id : Str
  pub trajectories_size : ℕ
  pub is_complete : Bool
  pub trajectories : List (TrajectoryLine F)

module _ {F : Type 0} where
  abbrev pub trajectory_lines : ℕ → List (Trajectory F) → List (TrajectoryLine F)
  trajectory_lines j [] = []
  trajectory_lines j (t ∷ ts) =
      record { index = j; uid = t.uid; reward = t.reward } ∷ trajectory_lines (1 + j) ts

  abbrev pub group_lines : ℕ → List (TrajectoryGroup F) → List (GroupLine F)
  group_lines i [] = []
  group_lines i (g ∷ gs) =
      record {
        index = i;
        instance_id = g.instance_id;
        trajectories_size = length g.trajectories;
        is_complete = g.is_complete;
        trajectories = trajectory_lines 0 g.trajectories;
      }
      ∷ group_lines (1 + i) gs

-- What a program logs at its end: the outcome of its call, or the exception that it caught.
pub data Report (F : Type 0) : Type 0 where
  wrote : Bool → Report F
  none_available : Report F
  read_groups : List (GroupLine F) → Report F
  buffer_status : BufferStatus → Report F
  failed : Error → Report F

-- `groups.empty()`.
abbrev pub groups_report : {F : Type 0} → List (TrajectoryGroup F) → Report F
groups_report [] = none_available
groups_report (g ∷ gs) = read_groups (group_lines 0 (g ∷ gs))

module _ {S F : Type 0} where
  -- `catch (const std::exception& e)`.
  abbrev pub caught : Result (Report F) × Session S → Report F × S
  caught (ok report, s) = (report, s.remote)
  caught (err e, s) = (failed e, s.remote)

module _ {S : Type 0} where
  abbrev pub new_session : S → Session S
  new_session s = record { client = make localhost 8890; remote = s }

-- `make_rpc_client` and `call` are the RPC library's: see `Client`.
module _ {S F : Type 0} (formats : Formats F) (make_rpc_client : Str → ℕ → Action S (Unit {0}))
    (call : Verb → Str → Action S Str) where
  unfoldable pub write_example : Double F → S → Report F × S
  write_example d s = caught (
      (do
        connect make_rpc_client
        success ← Client.write formats call (sample_trajectory d)
        close
        pure (wrote success))
        (new_session s))

  -- Up to five groups, without waiting.
  unfoldable pub read_example : S → Report F × S
  read_example s = caught (
      (do
        connect make_rpc_client
        groups ← Client.batch_read formats call (pos 5) false (pos 0)
        close
        pure (groups_report groups))
        (new_session s))

  unfoldable pub status_example : S → Report F × S
  status_example s = caught (
      (do
        connect make_rpc_client
        status ← Client.get_status formats call
        close
        pure (buffer_status status))
        (new_session s))
