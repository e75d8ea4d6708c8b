-- ===== src/Client.antt =====
-- client/client.h and client.cc: the client of the RPC interface. `S` is the state of everything on
-- the other side of the network; the RPC library's calls are parameters.
pub mod Calls
pub mod Stream
pub mod Loops
pub mod Reach
pub mod Resubscribed
mod Tests
use transfer_queue.Prelude.{
  ℕ, zero, suc, Bool, true, false, not, List, [], ◌∷◌, Option, none, some, ite, Str, ltb,
  ℕ_discrete, if◌then◌else◌,
}
use transfer_queue.Prelude.Int.{ℤ, pos, negsuc, ltb_ℤ}
use transfer_queue.Action.{
  Action, Result, ok, err, serialize_failed, parse_failed, not_connected, connect_failed,
  already_subscribed, call_failed, pure, throw, continue, ◌>>=◌, ◌>>◌,
}
use transfer_queue.Platform.Message.{Format, Formats}
use transfer_queue.Proto.{
  Trajectory, TrajectoryGroup, BufferStatus, BatchWriteResponse, BatchReadResult, GetStatusRequest,
  get_status_request,
}
use transfer_queue.RpcHandler
use transfer_queue.RpcHandler.{Verb}

-- `rpc_proto_` and `rpc_client_`: whether they are there. A background loop of `subscribe` that
-- runs has a number; it waits for its next item, or it is one of `callbacks` and waits for the future
-- that its callback returned. `streaming_task_` is the last loop that was started.
pub record TransferQueueClient : Type 0 where
  pub host : Str
  pub port : ℕ
  pub connected : Bool
  pub rpc_proto : Bool
  pub rpc_client : Bool
  pub streaming_active : Bool
  pub streaming_task : Option ℕ
  pub loops : List ℕ
  pub callbacks : List ℕ
  pub next_loop : ℕ

-- The constructor.
unfoldable pub make : Str → ℕ → TransferQueueClient
make host port = record {
  host = host;
  port = port;
  connected = false;
  rpc_proto = false;
  rpc_client = false;
  streaming_active = false;
  streaming_task = none;
  loops = [];
  callbacks = [];
  next_loop = 0;
}

abbrev pub closed_if : Bool → TransferQueueClient → TransferQueueClient
closed_if false c = c
closed_if true c = record c { rpc_client = false; rpc_proto = false; connected = false }

-- A client with what it is connected to.
pub record Session (S : Type 0) : Type 0 where
  pub client : TransferQueueClient
  pub remote : S

module _ {S : Type 0} where
  abbrev pub on_remote : {A : Type 0} → Action S A → Action (Session S) A
  on_remote m s = ((m s.remote).0, record s { remote = (m s.remote).1 })

  abbrev pub self : Action (Session S) TransferQueueClient
  self s = (ok s.client, s)

  abbrev pub become : TransferQueueClient → Action (Session S) (Unit {0})
  become c s = (ok tt, record s { client = c })

  -- `if (!connected_) return make_exception_future(...)`.
  abbrev pub if_connected : {A : Type 0} → Action (Session S) A → Bool → Action (Session S) A
  if_connected m false = throw not_connected
  if_connected m true = m

  abbrev pub when_connected : {A : Type 0} → Action (Session S) A → Action (Session S) A
  when_connected m s = if_connected m s.client.connected s

  -- The RPC client on a host and a port, whose constructor may throw.
  module _ (make_rpc_client : Str → ℕ → Action S (Unit {0})) where
    abbrev pub connected_by : Result (Unit {0}) × Session S → Result (Unit {0}) × Session S
    connected_by (ok _, s) =
        (ok tt, record s { client = record s.client { rpc_client = true; connected = true } })
    connected_by (err e, s) = (err connect_failed, s)

    abbrev pub connect_unless : Bool → Action (Session S) (Unit {0})
    connect_unless true s = (ok tt, s)
    connect_unless false s = connected_by (
        on_remote (make_rpc_client s.client.host s.client.port)
          (record s { client = record s.client { rpc_proto = true } }))

    unfoldable pub connect : Action (Session S) (Unit {0})
    connect s = connect_unless s.client.connected s

  unfoldable pub close : Action (Session S) (Unit {0})
  close s = (ok tt, record s { client = closed_if s.client.connected s.client })

module _ {A : Type 0} (f : Format A) where
  -- `if (!req.SerializeToString(&serialized)) ...`.
  abbrev pub serialized : {S : Type 0} → Option Str → Action S Str
  serialized none = throw serialize_failed
  serialized (some s) = pure s

  abbrev pub serialize : {S : Type 0} → A → Action S Str
  serialize a = serialized (f.to_string a)

  -- `if (!resp.ParseFromString(response_data)) throw ...`.
  abbrev pub parsed : {S : Type 0} → Option A → Action S A
  parsed none = throw parse_failed
  parsed (some a) = pure a

  abbrev pub parse : {S : Type 0} → Str → Action S A
  parse s = parsed (f.parse s)

-- `if (!resp.success()) throw ...`.
abbrev pub check_success : {S : Type 0} → Bool → Action S (Unit {0})
check_success true = pure tt
check_success false = throw call_failed

-- `call` is a remote call: it returns the reply of the handler of a verb.
module _ {S F : Type 0} (formats : Formats F) (call : Verb → Str → Action S Str) where
  -- The lambda of `batch_write`.
  abbrev pub written_reply : Str → Action (Session S) ℤ
  written_reply response_data = do
    resp ← parse formats.batch_write_response response_data
    check_success resp.success
    pure resp.written_count

  unfoldable pub batch_write : List (Trajectory F) → Action (Session S) ℤ
  batch_write trajectories = when_connected (do
    request ← serialize formats.batch_write_request (record { trajectories = trajectories })
    response_data ← on_remote (call Verb.batch_write request)
    written_reply response_data)

  unfoldable pub write : Trajectory F → Action (Session S) Bool
  write trajectory = do count ← batch_write (trajectory ∷ []); pure (ltb_ℤ (pos 0) count)

  -- The lambda of `batch_read`.
  abbrev pub groups_reply : Str → Action (Session S) (List (TrajectoryGroup F))
  groups_reply response_data = do
    result ← parse formats.batch_read_result response_data
    check_success result.success
    pure result.groups

  unfoldable pub batch_read : ℤ → Bool → ℤ → Action (Session S) (List (TrajectoryGroup F))
  batch_read max_groups block timeout_ms = when_connected (do
    request ←
        serialize formats.batch_read_request
          (record { max_groups = max_groups; block = block; timeout_ms = timeout_ms })
    response_data ← on_remote (call Verb.batch_read request)
    groups_reply response_data)

  unfoldable pub get_status : Action (Session S) BufferStatus
  get_status = when_connected (do
    request ← serialize formats.get_status_request get_status_request
    response_data ← on_remote (call Verb.get_status request)
    parse formats.buffer_status response_data)
