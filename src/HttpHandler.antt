-- ===== src/HttpHandler.antt =====
-- server/http_handler.h and http_handler.cc: the REST interface. A route reads the body, converts
-- JSON, calls the manager and answers; an exception becomes a reply. The HTTP server and Protobuf's
-- JSON conversion are parameters.
pub mod Texts
pub mod Replies
pub mod Reset
mod Tests
use transfer_queue.Prelude.{
  ℕ, Bool, true, false, List, [], ◌∷◌, ◌++◌, Option, none, some, Str, if◌then◌else◌,
}
use transfer_queue.Prelude.Int.{ℤ, pos}
use transfer_queue.Action.{
  Action, Result, ok, err, Error, null_dereference, runtime_error, pure, throw, continue, ◌>>=◌,
  ◌>>◌,
}
use transfer_queue.Platform.Runtime.{Runtime}
use transfer_queue.Proto.{
  Trajectory, TrajectoryGroup, ConfigRequest, WriteRequest, WriteResponse, GetRolloutDataResponse,
  ConfigResponse, ResetResponse, DeleteInstanceResponse,
}
use transfer_queue.BufferShard.Groups.{GroupMap}
use transfer_queue.BufferManager
use transfer_queue.BufferManager.{Server}
use transfer_queue.HttpHandler.Texts.{
  ok_text, duplicate_uid, config_updated, buffer_reset, instance_deleted, invalid_json,
  serialize_response, missing_instance_id, unknown_error, json_type, plain_type,
}

-- A conversion from or to JSON: its value, or the text of the status that is not `ok()`.
pub data Converted (A : Type 0) : Type 0 where
  converted : A → Converted A
  refused : Str → Converted A

-- The fields of `JsonPrintOptions` that the code sets.
pub record JsonPrintOptions : Type 0 where
  pub always_print_primitive_fields : Bool
  pub preserve_proto_field_names : Bool

-- `JsonStringToMessage` and `MessageToJsonString`.
pub record Json (F : Type 0) : Type 0 where
  pub to_write_request : Str → Converted (WriteRequest F)
  pub to_config_request : Str → Converted (ConfigRequest F)
  pub write_response : JsonPrintOptions → WriteResponse → Converted Str
  pub rollout_data : JsonPrintOptions → GetRolloutDataResponse F → Converted Str
  pub config_response : JsonPrintOptions → ConfigResponse → Converted Str
  pub reset_response : JsonPrintOptions → ResetResponse → Converted Str
  pub delete_response : JsonPrintOptions → DeleteInstanceResponse → Converted Str

-- What reading `content_stream` to its end gives, if there is one, and `get_path_param`.
pub record Request : Type 0 where
  pub content_stream : Option (Result Str)
  pub get_path_param : Str

pub data StatusType : Type 0 where
  ok_status bad_request internal_server_error : StatusType

pub record Reply : Type 0 where
  pub status : StatusType
  pub content_type : Str
  pub body : Str

-- `std::make_unique<seastar::http::reply>()`.
abbrev pub fresh_reply : Reply
fresh_reply = record { status = ok_status; content_type = []; body = [] }

unfoldable pub write_body : Str → Str → Reply → Reply
write_body content_type body rep = record rep { content_type = content_type; body = body }

abbrev pub body_of : {S : Type 0} → Option (Result Str) → Action S Str
body_of none = pure []
body_of (some (ok body)) = pure body
body_of (some (err e)) = throw e

abbrev pub read_body : {S : Type 0} → Request → Action S Str
read_body req = body_of req.content_stream

-- `json_reply` after the conversion.
unfoldable pub json_reply : Reply → Converted Str → Reply
json_reply rep (converted json_str) = write_body json_type json_str rep
json_reply rep (refused status) =
    write_body plain_type (serialize_response ++ status)
      (record rep { status = internal_server_error })

abbrev pub reply_options : JsonPrintOptions
reply_options = record { always_print_primitive_fields = true; preserve_proto_field_names = true }

abbrev pub default_options : JsonPrintOptions
default_options = record {
  always_print_primitive_fields = false;
  preserve_proto_field_names = false;
}

unfoldable pub error_reply : Reply → StatusType → Str → Reply
error_reply rep status message = write_body plain_type message (record rep { status = status })

-- `if (!status.ok()) throw std::runtime_error("Invalid JSON: " + status.ToString())`.
abbrev pub checked : {S A : Type 0} → Str → Converted A → Action S A
checked context (converted a) = pure a
checked context (refused status) = throw (runtime_error (context ++ status))

-- `none`: the text that a conversion leaves when it fails.
abbrev pub printed : Converted Str → Option Str
printed (converted json_str) = some json_str
printed (refused status) = none

module _ {F : Type 0} where
  abbrev pub trajectory_of : WriteRequest F → Trajectory F
  trajectory_of write_req = record {
    uid = write_req.uid;
    instance_id = write_req.instance_id;
    messages = write_req.messages;
    reward = write_req.reward;
    extra_info = write_req.extra_info;
  }

  -- The loops that flatten the groups.
  unfoldable pub flatten : List (TrajectoryGroup F) → List (Trajectory F)
  flatten [] = []
  flatten (g ∷ gs) = g.trajectories ++ flatten gs

  abbrev pub rollout_data : Str → List (TrajectoryGroup F) → GetRolloutDataResponse F
  rollout_data message groups = record {
    success = true;
    message = message;
    trajectories = flatten groups;
    meta_info = none;
  }

  abbrev pub parsed_write : Converted (WriteRequest F) → Result (Trajectory F)
  parsed_write (converted write_req) = ok (trajectory_of write_req)
  parsed_write (refused status) = err (runtime_error status)

  module _ (json : Json F) where
    -- Two helpers that no handler calls.
    unfoldable pub parse_write_request : Str → Result (Trajectory F)
    parse_write_request body = parsed_write (json.to_write_request body)

    unfoldable pub serialize_rollout_data : List (TrajectoryGroup F) → Option Str
    serialize_rollout_data groups =
        printed (json.rollout_data default_options (rollout_data [] groups))

-- The reply of `handle_exception`; `what` is the text of an exception that is a `std::exception`.
abbrev pub exception_reply : Reply → Option Str → Reply
exception_reply rep (some message) = error_reply rep bad_request message
exception_reply rep none = error_reply rep internal_server_error unknown_error

abbrev pub handled : {S : Type 0} → (Error → Option Str) → Result Reply × S → Result Reply × S
handled what (ok rep, s) = (ok rep, s)
handled what (err e, s) = (ok (exception_reply fresh_reply (what e)), s)

-- The handler of the delete route captures a reply that has been moved away.
abbrev pub handled_moved : {S : Type 0} → Result Reply × S → Result Reply × S
handled_moved (ok rep, s) = (ok rep, s)
handled_moved (err e, s) = (err null_dereference, s)

abbrev pub write_response : Bool → WriteResponse
write_response success = record {
  success = success;
  message = if success then ok_text else duplicate_uid;
}

-- The routes of `register_routes`.
pub data Route : Type 0 where
  post_write post_get_rollout_data post_config post_reset delete_instance : Route

-- `count` and `arrange` are as in `BufferManager`.
module _ {W H F : Type 0} (rt : Runtime W H F) (count : ℕ) (arrange : GroupMap F → GroupMap F)
    (json : Json F) where
  -- `handle_write` after the conversion of the body.
  abbrev pub write_for : Reply → Converted (WriteRequest F) → Action (Server W F) Reply
  write_for rep status = do
    write_req ← checked invalid_json status
    success ← BufferManager.write rt count arrange (trajectory_of write_req)
    pure (json_reply rep (json.write_response reply_options (write_response success)))

  unfoldable pub handle_write : Request → Reply → Action (Server W F) Reply
  handle_write req rep = do body ← read_body req; write_for rep (json.to_write_request body)

  unfoldable pub handle_get_rollout_data : Request → Reply → Action (Server W F) Reply
  handle_get_rollout_data req rep = do
    body ← read_body req
    groups ← BufferManager.read_ready_groups rt (pos 100)
    pure (json_reply rep (json.rollout_data reply_options (rollout_data ok_text groups)))

  abbrev pub update_config : ConfigRequest F → Action (Server W F) (Unit {0})
  update_config config_req s =
      (ok tt, record s { manager = BufferManager.update_config rt.double config_req s.manager })

  unfoldable pub handle_config : Request → Reply → Action (Server W F) Reply
  handle_config req rep = do
    body ← read_body req
    config_req ← checked invalid_json (json.to_config_request body)
    update_config config_req
    pure (
        json_reply rep (
          json.config_response reply_options (record { success = true; message = config_updated })))

  unfoldable pub handle_reset : Request → Reply → Action (Server W F) Reply
  handle_reset req rep = do
    body ← read_body req
    BufferManager.reset rt count
    pure (
        json_reply rep
          (json.reset_response reply_options (record { success = true; message = buffer_reset })))

  unfoldable pub delete_for : Str → Reply → Action (Server W F) Reply
  delete_for [] rep = pure (error_reply rep bad_request missing_instance_id)
  delete_for (c ∷ id) rep = do
    BufferManager.delete_instance rt count (c ∷ id)
    pure (
        json_reply rep (
          json.delete_response reply_options
            (record { success = true; message = instance_deleted })))

  unfoldable pub handle_delete_instance : Request → Reply → Action (Server W F) Reply
  handle_delete_instance req rep = delete_for req.get_path_param rep

  unfoldable pub route : (Error → Option Str) → Route → Request → Action (Server W F) Reply
  route what post_write req s = handled what (handle_write req fresh_reply s)
  route what post_get_rollout_data req s = handled what (handle_get_rollout_data req fresh_reply s)
  route what post_config req s = handled what (handle_config req fresh_reply s)
  route what post_reset req s = handled what (handle_reset req fresh_reply s)
  route what Route.delete_instance req s = handled_moved (handle_delete_instance req fresh_reply s)
