-- ===== src/Client/Calls.antt =====
-- The calls of client/client.cc against the handlers of server/rpc_handler.cc: both ends together.
use transfer_queue.Prelude.{ℕ, ◌≡◌, refl, true, Bool, List, Str}
use transfer_queue.Prelude.Int.{ℤ, pos}
use transfer_queue.Action.{Action, Result, ok, err, map_result, pure, continue}
use transfer_queue.Platform.Message.{Formats, Sends}
use transfer_queue.Platform.Runtime.{Runtime}
use transfer_queue.Proto.{Trajectory, TrajectoryGroup, BatchReadRequest, get_status_request}
use transfer_queue.BufferShard.Groups.{GroupMap}
use transfer_queue.BufferManager
use transfer_queue.BufferManager.{Server, Batches}
use transfer_queue.RpcHandler.{
  Verb, dispatch, handle_batch_write, handle_batch_read, handle_get_status, read_for, read_result,
  serialize_proto,
}
use transfer_queue.Client.{
  TransferQueueClient, Session, written_reply, groups_reply, batch_write, batch_read, get_status,
}

module _ {W H F : Type 0} (rt : Runtime W H F) (count : ℕ) (arrange : GroupMap F → GroupMap F)
    (order : Batches F → Batches F) (sleep : Action (Server W F) (Unit {0})) (fuel : ℕ)
    (formats : Formats F) where
  -- A network that hands each call to the server and its answer back.
  abbrev pub network : Verb → Str → Action (Server W F) Str
  network = dispatch rt count arrange order sleep fuel formats

  -- The reply of a handler that answers with a message, as a client reads it.
  abbrev pub reply :
      {A B : Type 0}
      → (A → Str)
      → Result A × Server W F
      → (Str → Action (Session (Server W F)) B)
      → TransferQueueClient
      → Result B × Session (Server W F)
  reply print r k c =
      continue
        (
          (continue r (λ a. pure (print a))).0,
          record { client = c; remote = (continue r (λ a. pure (print a))).1 },
        )
        k

  -- A reply that is read back is the value that the server returned; its exception is the client's.
  reply_lem :
      {A B : Type 0} (print : A → Str) (k : Str → Action (Session (Server W F)) B) (v : A → B)
      → (r : Result A × Server W F) (c : TransferQueueClient)
      → ((a : A) → r.0 ≡ ok a → (s : Session (Server W F)) → k (print a) s ≡ (ok (v a), s))
      → reply print r k c ≡ (map_result v r.0, record { client = c; remote = r.1 })
  reply_lem print k v (ok a, s) c reads = reads a refl (record { client = c; remote = s })
  reply_lem print k v (err e, s) c reads = refl

  reply_same :
      {A : Type 0} (print : A → Str) (k : Str → Action (Session (Server W F)) A)
      → (r : Result A × Server W F) (c : TransferQueueClient)
      → ((a : A) → r.0 ≡ ok a → (s : Session (Server W F)) → k (print a) s ≡ (ok a, s))
      → reply print r k c ≡ (r.0, record { client = c; remote = r.1 })
  reply_same print k (ok a, s) c reads = reads a refl (record { client = c; remote = s })
  reply_same print k (err e, s) c reads = refl

  -- Through a connected client, `batch_write` is the batch write of the manager: the same effect on
  -- the server, and the same number or exception. Protobuf must carry the request and the response. A
  -- `get()` of a pending future in the server, which ends its process, counts as an exception of the
  -- manager.
  pub batch_write_remote :
      (ts : List (Trajectory F)) (c : TransferQueueClient) (s : Server W F)
      → c.connected ≡ true
      → Sends formats.batch_write_request (record { trajectories = ts })
      → ((n : ℕ)
          → (BufferManager.batch_write rt count arrange order ts s).0 ≡ ok n
          → Sends formats.batch_write_response (record { success = true; written_count = pos n }))
      → batch_write formats network ts (record { client = c; remote = s }) ≡ (
        map_result pos (BufferManager.batch_write rt count arrange order ts s).0,
        record { client = c; remote = (BufferManager.batch_write rt count arrange order ts s).1 },
      )
  unfolding batch_write dispatch handle_batch_write
  batch_write_remote ts c s on req resp =
      rw (on, req.serialized, req.from_string)
        (reply_lem
          (λ n.
            serialize_proto formats.batch_write_response
              (record { success = true; written_count = pos n }))
          (written_reply formats network) pos
          (BufferManager.batch_write rt count arrange order ts s) (record c { connected = true })
          (λ n e s'. rw ((resp n e).from_array) refl))

  -- Through a connected client, `batch_read` is the read of the manager that the request asks for.
  pub batch_read_remote :
      (max_groups : ℤ) (block : Bool) (timeout_ms : ℤ) (c : TransferQueueClient) (s : Server W F)
      → let req : BatchReadRequest = record {
        max_groups = max_groups;
        block = block;
        timeout_ms = timeout_ms;
      } in
        let r = read_for rt count arrange order sleep fuel formats req s in
        c.connected ≡ true
        → Sends formats.batch_read_request req
        → ((gs : List (TrajectoryGroup F))
            → r.0 ≡ ok gs
            → Sends formats.batch_read_result
                (read_result rt count arrange order sleep fuel formats gs))
        → batch_read formats network max_groups block timeout_ms (record { client = c; remote = s })
          ≡ (r.0, record { client = c; remote = r.1 })
  unfolding batch_read dispatch handle_batch_read
  batch_read_remote max_groups block timeout_ms c s on req resp =
      rw (on, req.serialized, req.from_string)
        (reply_same
          (λ gs.
            serialize_proto formats.batch_read_result
              (read_result rt count arrange order sleep fuel formats gs))
          (groups_reply formats network)
          (read_for rt count arrange order sleep fuel formats
            (record { max_groups = max_groups; block = block; timeout_ms = timeout_ms }) s)
          (record c { connected = true }) (λ gs e s'. rw ((resp gs e).from_array) refl))

  -- Through a connected client, `get_status` is the status of the manager, and changes nothing.
  pub get_status_remote :
      (c : TransferQueueClient) (s : Server W F)
      → c.connected ≡ true
      → Sends formats.get_status_request get_status_request
      → Sends formats.buffer_status (BufferManager.get_status rt s)
      → get_status formats network (record { client = c; remote = s })
        ≡ (ok (BufferManager.get_status rt s), record { client = c; remote = s })
  unfolding get_status dispatch handle_get_status
  get_status_remote c s on req resp = rw (on, req.serialized, resp.from_array) refl
