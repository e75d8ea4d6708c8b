-- ===== src/RpcHandler.antt =====
-- server/rpc_handler.h and rpc_handler.cc: the calls of the manager over the network. The library's
-- streams are byte lists; `dispatch` is the table of handlers, and a handler's exception goes back to
-- the caller.
pub mod Serializer
pub mod RoundTrip
pub mod Subscribe
mod Tests
use transfer_queue.Prelude.{
  ℕ, zero, suc, Bool, true, false, List, [], ◌∷◌, ◌++◌, Option, none, some, Str, if◌then◌else◌,
}
use transfer_queue.Prelude.Int.{ℤ, pos, negsuc}
use transfer_queue.Action.{
  Action, Result, ok, err, parse_failed, unknown_verb, pure, throw, continue, ◌>>=◌, ◌>>◌, for_each,
}
use transfer_queue.Platform.Message.{Format, Formats}
use transfer_queue.Platform.Runtime.{Runtime}
use transfer_queue.Proto.{
  TrajectoryGroup, BatchWriteRequest, BatchWriteResponse, BatchReadRequest, BatchReadResult,
}
use transfer_queue.BufferShard.Groups.{GroupMap}
use transfer_queue.BufferManager
use transfer_queue.BufferManager.{Server, Batches}

-- A server on a port, until it is stopped.
pub record Listener : Type 0 where
  pub port : ℕ
  pub running : Bool

-- `rpc_proto_`, or whether it is there, and `rpc_server_`.
pub record RpcHandler : Type 0 where
  pub rpc_proto : Bool
  pub rpc_server : Option Listener

unfoldable pub make : RpcHandler
make = record { rpc_proto = false; rpc_server = none }

-- The protocol is there before the server, whose constructor listens and may throw.
abbrev pub served : ℕ → RpcHandler → Result (Unit {0}) → RpcHandler
served port h (ok u) = record {
  rpc_proto = true;
  rpc_server = some (record { port = port; running = true });
}
served port h (err e) = record h { rpc_proto = true }

-- `listen` is what the constructor of the library's server does on a port.
unfoldable pub start :
    {W : Type 0} → (ℕ → Action W (Unit {0})) → ℕ → Action (RpcHandler × W) (Unit {0})
start listen port (h, w) = let r = listen port w in (r.0, (served port h r.0, r.1))

abbrev pub stopped : Option Listener → Option Listener
stopped none = none
stopped (some l) = some (record l { running = false })

-- The pointers stay.
unfoldable pub stop : RpcHandler → RpcHandler
stop h = record h { rpc_server = stopped h.rpc_server }

pub data Verb : Type 0 where
  batch_write batch_read get_status subscribe : Verb

-- A stream to a subscriber: the server, and what the sink has taken.
pub record Stream (W F : Type 0) : Type 0 where
  pub server : Server W F
  pub sent : List Str

module _ {A : Type 0} (f : Format A) where
  abbrev pub serialize_proto : A → Str
  serialize_proto = f.to_array

  abbrev pub parsed : {S : Type 0} → Option A → Action S A
  parsed none = throw parse_failed
  parsed (some a) = pure a

  abbrev pub parse_proto : {S : Type 0} → Str → Action S A
  parse_proto s = parsed (f.parse s)

-- What a handler needs besides the server: see `BufferManager`. `fuel` bounds the rounds of a
-- blocking read.
module _ {W H F : Type 0} (rt : Runtime W H F) (count : ℕ) (arrange : GroupMap F → GroupMap F)
    (order : Batches F → Batches F) (sleep : Action (Server W F) (Unit {0})) (fuel : ℕ)
    (formats : Formats F) where
  unfoldable pub handle_batch_write : Str → Action (Server W F) Str
  handle_batch_write request_data = do
    req ← parse_proto formats.batch_write_request request_data
    written ← BufferManager.batch_write rt count arrange order req.trajectories
    pure (
        serialize_proto formats.batch_write_response
          (record { success = true; written_count = pos written }))

  abbrev pub read_result : List (TrajectoryGroup F) → BatchReadResult F
  read_result groups = record { success = true; message = []; groups = groups; meta_info = none }

  unfoldable pub read_for : BatchReadRequest → Action (Server W F) (List (TrajectoryGroup F))
  read_for req s =
      if req.block
      then BufferManager.read_ready_groups_blocking rt sleep fuel req.max_groups req.timeout_ms s
      else BufferManager.read_ready_groups rt req.max_groups s

  unfoldable pub handle_batch_read : Str → Action (Server W F) Str
  handle_batch_read request_data = do
    req ← parse_proto formats.batch_read_request request_data
    groups ← read_for req
    pure (serialize_proto formats.batch_read_result (read_result groups))

  unfoldable pub handle_get_status : Str → Action (Server W F) Str
  handle_get_status request_data s =
      (ok (serialize_proto formats.buffer_status (BufferManager.get_status rt s)), s)

  -- The handlers of `register_handlers` that answer; `subscribe` has a stream.
  unfoldable pub dispatch : Verb → Str → Action (Server W F) Str
  dispatch batch_write = handle_batch_write
  dispatch batch_read = handle_batch_read
  dispatch get_status = handle_get_status
  dispatch subscribe = λ s. throw unknown_verb

  -- `req.prefetch_groups() > 0 ? req.prefetch_groups() : 1`.
  abbrev pub prefetch_of : ℤ → ℤ
  prefetch_of (pos (suc n)) = pos (suc n)
  prefetch_of (pos zero) = pos 1
  prefetch_of (negsuc n) = pos 1

  -- `accept` tells whether the sink takes a message, after those that it took.
  module _ (accept : List Str → Str → Result (Unit {0})) where
    abbrev pub taken : Result (Unit {0}) → Str → Action (Stream W F) (Unit {0})
    taken (ok _) msg s = (ok tt, record s { sent = s.sent ++ msg ∷ [] })
    taken (err e) msg s = (err e, s)

    abbrev pub sink : Str → Action (Stream W F) (Unit {0})
    sink msg s = taken (accept s.sent msg) msg s

    abbrev pub on_server : {A : Type 0} → Action (Server W F) A → Action (Stream W F) A
    on_server m s = ((m s.server).0, record s { server = (m s.server).1 })

    unfoldable pub push_groups : List (TrajectoryGroup F) → Action (Stream W F) (Unit {0})
    push_groups [] = pure tt
    push_groups (g ∷ gs) = do sink (serialize_proto formats.trajectory_group g); push_groups gs

    -- One round of `keep_doing`.
    unfoldable pub subscribe_round : ℤ → Action (Stream W F) (Unit {0})
    subscribe_round prefetch = do
      groups ←
          on_server (BufferManager.read_ready_groups_blocking rt sleep fuel prefetch (pos 1000))
      push_groups groups

    -- `keep_doing` runs until an exception: this is its first `rounds` rounds.
    unfoldable pub subscribe_rounds : ℕ → ℤ → Action (Stream W F) (Unit {0})
    subscribe_rounds zero prefetch = pure tt
    subscribe_rounds (suc rounds) prefetch = do
      subscribe_round prefetch
      subscribe_rounds rounds prefetch

    unfoldable pub handle_subscribe : ℕ → Str → Action (Stream W F) (Unit {0})
    handle_subscribe rounds request_data = do
      req ← parse_proto formats.subscribe_request request_data
      subscribe_rounds rounds (prefetch_of req.prefetch_groups)
