-- ===== src/Platform/Formats.antt =====
-- A toy wire format of the messages, in which every number is one byte; the larger requests are the
-- ones of one run.
use transfer_queue.Prelude.{ℕ, zero, suc, true, ◌≡◌, refl, ap, [], ◌∷◌, Option, none, some, Str}
use transfer_queue.Prelude.Int.{ℤ, pos, negsuc}
use transfer_queue.Proto.{
  BufferStatus, BatchWriteRequest, BatchWriteResponse, BatchReadRequest, BatchReadResult,
  get_status_request, SubscribeRequest,
}
use transfer_queue.Platform.Codec
use transfer_queue.Platform.Message.{Format, Formats, Sends}

-- The format of a single message.
abbrev pub only : {A : Type 0} → A → Format A
only a = record { to_string = λ _. some []; to_array = λ _. []; parse = λ _. some a }

-- A format with one way to write and one to read.
abbrev pub format_by : {A : Type 0} → (A → Str) → (Str → Option A) → Format A
format_by print read = record { to_string = λ a. some (print a); to_array = print; parse = read }

abbrev sign : ℤ → ℕ
sign (pos n) = 0
sign (negsuc n) = 1

abbrev size : ℤ → ℕ
size (pos n) = n
size (negsuc n) = n

abbrev int_from : ℕ → ℕ → ℤ
int_from zero n = pos n
int_from (suc _) n = negsuc n

int_from_lem : (z : ℤ) → int_from (sign z) (size z) ≡ z
int_from_lem (pos n) = refl
int_from_lem (negsuc n) = refl

abbrev print_written : BatchWriteResponse → Str
print_written r = sign r.written_count ∷ size r.written_count ∷ []

abbrev read_written : Str → Option BatchWriteResponse
read_written (s ∷ n ∷ []) = some (record { success = true; written_count = int_from s n })
read_written _ = none

abbrev print_status : BufferStatus → Str
print_status st =
    st.total_trajectories
    ∷ st.total_consumed
    ∷ st.pending_groups
    ∷ st.incomplete_groups
    ∷ st.memory_usage_bytes
    ∷ sign st.disk_usage_bytes
    ∷ size st.disk_usage_bytes
    ∷ []

abbrev read_status : Str → Option BufferStatus
read_status (a ∷ b ∷ c ∷ d ∷ m ∷ s ∷ n ∷ []) = some (record {
  total_trajectories = a;
  total_consumed = b;
  pending_groups = c;
  incomplete_groups = d;
  memory_usage_bytes = m;
  disk_usage_bytes = int_from s n;
})
read_status _ = none

abbrev print_subscribe : SubscribeRequest → Str
print_subscribe r = sign r.prefetch_groups ∷ size r.prefetch_groups ∷ []

abbrev read_subscribe : Str → Option SubscribeRequest
read_subscribe (s ∷ n ∷ []) = some (record { prefetch_groups = int_from s n })
read_subscribe _ = none

abbrev print_group : Option Str → Str
print_group none = []
print_group (some s) = s

abbrev pub formats : BatchWriteRequest ℕ → BatchReadRequest → BatchReadResult ℕ → Formats ℕ
formats write_request read_request result = record {
  batch_write_request = only write_request;
  batch_write_response = format_by print_written read_written;
  batch_read_request = only read_request;
  batch_read_result = only result;
  get_status_request = only get_status_request;
  buffer_status = format_by print_status read_status;
  subscribe_request = format_by print_subscribe read_subscribe;
  trajectory_group = format_by (λ g. print_group (Codec.serialize g)) Codec.parse;
}

abbrev pub only-Sends : {A : Type 0} (a : A) → Sends (only a) a
only-Sends a = record { bytes = []; serialized = refl; from_string = refl; from_array = refl }

module _ (w : BatchWriteRequest ℕ) (q : BatchReadRequest) (r : BatchReadResult ℕ) where
  pub written-Sends :
      (n : ℕ)
      → Sends
          (formats w q r).batch_write_response
          (record { success = true; written_count = pos n })
  written-Sends n = record {
    bytes = 0 ∷ n ∷ [];
    serialized = refl;
    from_string = refl;
    from_array = refl;
  }

  pub status-Sends : (st : BufferStatus) → Sends (formats w q r).buffer_status st
  status-Sends st =
      let back =
        ap (λ z. some (record st { disk_usage_bytes = z })) (int_from_lem st.disk_usage_bytes) in
      record { bytes = print_status st; serialized = refl; from_string = back; from_array = back }
