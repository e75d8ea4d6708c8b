-- ===== src/HttpHandler/Tests.antt =====
-- Requests to the routes of server/http_handler.cc on a server with two shards.
use transfer_queue.Prelude.{
  ℕ, ◌≡◌, refl, true, false, [], ◌∷◌, ◌++◌, Option, none, some, Str, length, arith,
}
use transfer_queue.Prelude.Int.{pos}
use transfer_queue.Action.{Action, ok, Error, runtime_error, pure, for_each}
use transfer_queue.Proto.{
  BufferStatus, Trajectory, WriteRequest, ConfigRequest, get_status_request, BatchWriteRequest,
  BatchReadRequest, BatchReadResult,
}
use transfer_queue.Platform.Formats.{formats, only-Sends, status-Sends}
use transfer_queue.Platform.Message.{Formats}
use transfer_queue.Platform.Sample.{Machine, machine}
use transfer_queue.BufferShard.Contract.Balance.{all_trajectories}
use transfer_queue.BufferManager
use transfer_queue.BufferManager.{
  Server, Batches, invoke_on, at, shard_for, map_shards, each, truncated, merge_all,
}
use transfer_queue.BufferShard.Read
use transfer_queue.BufferShard.Read.{
  count_trajectories, scan_phase, scan_groups, finish_read, take_entry,
}
use transfer_queue.DiskStorage.{load_batch}
use transfer_queue.BufferShard.Write
use transfer_queue.BufferShard.Write.{
  check_uid, append_if, append, append_unless, append_in_memory, ensure_group, add_to_group,
}
use transfer_queue.BufferShard.Groups.{
  is_on_disk, is_complete, find, store, new_group, add_trajectory,
}
use transfer_queue.Config.{default_config}
use transfer_queue.BufferShard.Spill.{try_spill_groups, choose_groups, spill_chosen}
use transfer_queue.BufferShard.{estimate_memory_usage, groups_memory}
use transfer_queue.BufferManager.Sample.{trajectory, id_jj, server, arrange}
use transfer_queue.BufferManager.Emptying.{Zero}
use transfer_queue.Client.{TransferQueueClient, make, get_status}
use transfer_queue.Client.Calls.{network}
use transfer_queue.HttpHandler.{
  Converted, converted, refused, Json, Request, Reply, Route, ok_status, bad_request, post_write,
  post_config, post_reset, post_get_rollout_data, handle_write, handle_get_rollout_data, json_reply,
  write_body, flatten, route, rollout_data,
}
use transfer_queue.HttpHandler.Texts.{invalid_json, ok_text, json_type, plain_type}
use transfer_queue.HttpHandler.Replies.{
  Written, RolledOut, post_write-Written, invalid_json_rejected, post_get_rollout_data-RolledOut,
}
use transfer_queue.BufferManager.Sharded.{IsSharded}
use transfer_queue.BufferManager.Reach.{Reachable-IsSharded, started, then, writing}
use mathlib.Core.List.Permᴰ
use transfer_queue.HttpHandler.Reset.{post_reset-Zero, DeleteAnswered, delete_route-DeleteAnswered}

-- A toy conversion: an empty text is refused.
abbrev posted : Trajectory ℕ → WriteRequest ℕ
posted t = record {
  uid = t.uid;
  instance_id = t.instance_id;
  messages = t.messages;
  reward = t.reward;
  extra_info = t.extra_info;
}

abbrev to_write : Str → Converted (WriteRequest ℕ)
to_write [] = refused (b'e' ∷ [])
to_write (c ∷ s) = converted (posted (trajectory (c ∷ s)))

abbrev to_config : Str → Converted (ConfigRequest ℕ)
to_config s = refused (b'e' ∷ [])

abbrev json : Json ℕ
json = record {
  to_write_request = to_write;
  to_config_request = to_config;
  write_response = λ o r. converted r.message;
  rollout_data = λ o r. converted (length r.trajectories ∷ r.message);
  config_response = λ o r. converted r.message;
  reset_response = λ o r. converted r.message;
  delete_response = λ o r. converted r.message;
}

abbrev what : Error → Option Str
what (runtime_error s) = some s
what _ = some []

abbrev asking : Str → Request
asking s = record { content_stream = some (ok s); get_path_param = [] }

-- Without deduplication.
abbrev open_server : Server Machine ℕ
open_server = record server {
  manager = record server.manager { config = record server.manager.config { uid_dedup = false } };
}

abbrev good : Str → Reply
good s = record { status = ok_status; content_type = json_type; body = s }

invalid_json_rejected_example :
    (json.to_write_request [] ≡ refused (b'e' ∷ [])
      → route machine 2 arrange json what post_write (asking []) server ≡ (
        ok (record {
          status = bad_request;
          content_type = plain_type;
          body = invalid_json ++ b'e' ∷ [];
        }),
        server,
      ))
    × (json.to_config_request [] ≡ refused (b'e' ∷ [])
        → route machine 2 arrange json what post_config (asking []) server ≡ (
          ok (record {
            status = bad_request;
            content_type = plain_type;
            body = invalid_json ++ b'e' ∷ [];
          }),
          server,
        ))
invalid_json_rejected_example =
    invalid_json_rejected machine 2 arrange json what (asking []) server [] (b'e' ∷ [])
      (invalid_json ++ b'e' ∷ []) refl refl

posted_lem :
    (route machine 2 arrange json what post_write (asking id_jj) open_server).0 ≡ ok (good ok_text)
unfolding route handle_write json_reply write_body BufferManager.write invoke_on at shard_for
    Write.write check_uid append_if append append_unless append_in_memory ensure_group add_to_group
    is_on_disk find new_group add_trajectory default_config store try_spill_groups choose_groups
    spill_chosen estimate_memory_usage groups_memory
posted_lem = refl

post_write-Written_example :
    Written machine 2 arrange json what
      (asking id_jj).content_stream
      open_server
      (good ok_text)
      (route machine 2 arrange json what post_write (asking id_jj) open_server).1
post_write-Written_example =
    post_write-Written machine 2 arrange json what (asking id_jj) open_server (good ok_text)
      posted_lem refl

rolled_lem :
    (route machine 2 arrange json what post_get_rollout_data (asking []) server).0
    ≡ ok (good (1 ∷ ok_text))
unfolding route handle_get_rollout_data BufferManager.read_ready_groups map_shards each
    Read.read_ready_groups scan_phase scan_groups finish_read load_batch for_each is_complete
    take_entry is_on_disk json_reply write_body flatten truncated merge_all
rolled_lem = refl

post_get_rollout_data-RolledOut_example :
    (r : RolledOut machine 2 arrange json what server
      (good (1 ∷ ok_text))
      (route machine 2 arrange json what post_get_rollout_data (asking []) server).1)
    × ((rollout_data ok_text r.value).success ≡ true)
    × ((rollout_data ok_text r.value).trajectories ≡ all_trajectories r.value)
    × (length (rollout_data ok_text r.value).trajectories ≡ count_trajectories r.value)
post_get_rollout_data-RolledOut_example =
    post_get_rollout_data-RolledOut machine 2 arrange json what (asking []) server
      (good (1 ∷ ok_text)) rolled_lem refl

abbrev order : Batches ℕ → Batches ℕ
order l = l

abbrev still : Action (Server Machine ℕ) (Unit {0})
still = pure tt

abbrev no_writes : BatchWriteRequest ℕ
no_writes = record { trajectories = [] }

abbrev no_reads : BatchReadRequest
no_reads = record { max_groups = pos 0; block = false; timeout_ms = pos 0 }

abbrev no_groups : BatchReadResult ℕ
no_groups = record { success = true; message = []; groups = []; meta_info = none }

abbrev sample : Formats ℕ
sample = formats no_writes no_reads no_groups

abbrev client : TransferQueueClient
client = record (make (b'h' ∷ []) 8890) { connected = true; rpc_proto = true; rpc_client = true }

post_reset-Zero_example :
    (st : BufferStatus) × Zero st
    × ((get_status sample (network machine 2 arrange order still 0 sample) (record {
      client = client;
      remote = (route machine 2 arrange json what post_reset (asking []) server).1;
    })).0
        ≡ ok st)
post_reset-Zero_example =
    post_reset-Zero machine 2 arrange json what order still 0 sample client (asking []) server []
      refl refl (only-Sends get_status_request) (status-Sends no_writes no_reads no_groups _)

-- A server that has started and written a trajectory.
abbrev started_server : Server Machine ℕ
started_server = (BufferManager.start machine 2 server).1

abbrev written_server : Server Machine ℕ
written_server = (BufferManager.write machine 2 arrange (trajectory id_jj) started_server).1

written_server-IsSharded : IsSharded machine 2 written_server.manager
written_server-IsSharded =
    Reachable-IsSharded machine 2 arrange order (λ l. Permᴰ.refl l) (λ l. Permᴰ.refl l)
      (omega arith) (then (started server) (writing (trajectory id_jj) started_server))

abbrev deleting : Str → Request
deleting id = record { content_stream = none; get_path_param = id }

delete_route-DeleteAnswered_example :
    DeleteAnswered machine 2 arrange json what id_jj written_server
      (route machine 2 arrange json what Route.delete_instance (deleting id_jj) written_server)
delete_route-DeleteAnswered_example =
    delete_route-DeleteAnswered machine 2 arrange json what id_jj none written_server
      written_server-IsSharded (omega arith)
