-- ===== src/Platform/Message.antt =====
-- Protobuf's wire format of the messages that cross the network, as far as the code uses it.
use transfer_queue.Prelude.{◌≡◌, Option, some, Str}
use transfer_queue.Proto.{
  TrajectoryGroup, BufferStatus, BatchWriteRequest, BatchWriteResponse, BatchReadRequest,
  BatchReadResult, GetStatusRequest, SubscribeRequest,
}

-- `SerializeToString`, the bytes that `SerializeToArray` leaves in a buffer of `ByteSizeLong` bytes,
-- and `ParseFromString` or `ParseFromArray`.
pub record Format (A : Type 0) : Type 0 where
  pub to_string : A → Option Str
  pub to_array : A → Str
  pub parse : Str → Option A

pub record Formats (F : Type 0) : Type 0 where
  pub batch_write_request : Format (BatchWriteRequest F)
  pub batch_write_response : Format BatchWriteResponse
  pub batch_read_request : Format BatchReadRequest
  pub batch_read_result : Format (BatchReadResult F)
  pub get_status_request : Format GetStatusRequest
  pub buffer_status : Format BufferStatus
  pub subscribe_request : Format SubscribeRequest
  pub trajectory_group : Format (TrajectoryGroup F)

-- A message that is serialised, and parsed back from either form.
pub record Sends {A : Type 0} (f : Format A) (a : A) : Type 0 where
  pub bytes : Str
  pub serialized : f.to_string a ≡ some bytes
  pub from_string : f.parse bytes ≡ some a
  pub from_array : f.parse (f.to_array a) ≡ some a
