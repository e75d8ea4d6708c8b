-- ===== src/Examples/Runs.antt =====
-- The programs of examples/ against the server.
use transfer_queue.Prelude.{ℕ, ◌≡◌, refl, true, false, List, Str}
use transfer_queue.Prelude.Int.{pos}
use transfer_queue.Action.{Action, Result, ok, err, continue, pure, ◌>>◌}
use transfer_queue.Platform.Message.{Formats, Sends}
use transfer_queue.Platform.Runtime.{Runtime}
use transfer_queue.Proto.{BatchReadRequest, get_status_request, TrajectoryGroup}
use transfer_queue.BufferShard.Groups.{GroupMap}
use transfer_queue.BufferManager
use transfer_queue.BufferManager.{Server, Batches}
use transfer_queue.RpcHandler.{read_for, read_result}
use transfer_queue.Client.{TransferQueueClient, connect, close, make}
use transfer_queue.Client.Calls.{network, batch_read_remote, get_status_remote}
use transfer_queue.Examples.Texts.{localhost}
use transfer_queue.Examples.{
  caught, Report, buffer_status, failed, groups_report, read_example, status_example,
}

-- What a program logs of the result of its call.
abbrev pub report_of : {A F : Type 0} → (A → Report F) → Result A → Report F
report_of f (ok a) = f a
report_of f (err e) = failed e

-- The client of an example, once connected.
abbrev pub connected_client : TransferQueueClient
unfolding make
connected_client = record (make localhost 8890) {
  rpc_proto = true;
  rpc_client = true;
  connected = true;
}

module _ {S F : Type 0} where
  -- The end of a program, once its call has an outcome: it closes the client and reports.
  after_call :
      {A : Type 0} (report : A → Report F) (r : Result A) (c : TransferQueueClient) (s : S)
      → caught (continue (r, record { client = c; remote = s }) (λ a. close >> pure (report a)))
        ≡ (report_of report r, s)
  unfolding close
  after_call report (ok a) c s = refl
  after_call report (err e) c s = refl

module _ {W H F : Type 0} (rt : Runtime W H F) (count : ℕ) (arrange : GroupMap F → GroupMap F)
    (order : Batches F → Batches F) (sleep : Action (Server W F) (Unit {0})) (fuel : ℕ)
    (formats : Formats F) (make_rpc_client : Str → ℕ → Action (Server W F) (Unit {0}))
    (connects : (host : Str) (port : ℕ) (s : Server W F)
      → make_rpc_client host port s ≡ (ok tt, s)) where
  -- `read_example` is one read of at most five groups that does not wait.
  read_example_lem :
      (s : Server W F)
      → let req : BatchReadRequest = record {
        max_groups = pos 5;
        block = false;
        timeout_ms = pos 0;
      } in
        let r = read_for rt count arrange order sleep fuel formats req s in
        Sends formats.batch_read_request req
        → ((gs : List (TrajectoryGroup F))
            → r.0 ≡ ok gs
            → Sends formats.batch_read_result
                (read_result rt count arrange order sleep fuel formats gs))
        → read_example formats make_rpc_client (network rt count arrange order sleep fuel formats) s
          ≡ (report_of groups_report r.0, r.1)
  unfolding read_example connect make close
  read_example_lem s req resp =
      rw
        (
          connects,
          batch_read_remote rt count arrange order sleep fuel formats (pos 5) false (pos 0)
              connected_client s refl req resp,
        )
        (after_call groups_report _ connected_client
          (read_for rt count arrange order sleep fuel formats
            (record { max_groups = pos 5; block = false; timeout_ms = pos 0 }) s).1)

  -- `status_example` reports the status of the server and changes nothing.
  status_example_lem :
      (s : Server W F)
      → Sends formats.get_status_request get_status_request
      → Sends formats.buffer_status (BufferManager.get_status rt s)
      → status_example formats make_rpc_client (network rt count arrange order sleep fuel formats) s
        ≡ (buffer_status (BufferManager.get_status rt s), s)
  unfolding status_example connect make close
  status_example_lem s req resp =
      rw
        (
          connects,
          get_status_remote rt count arrange order sleep fuel formats connected_client s refl req
              resp,
        )
        refl
