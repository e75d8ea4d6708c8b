-- ===== src/Client/Tests.antt =====
-- A client of client/client.cc that is connected to a server with two shards.
use transfer_queue.Prelude.{
  ℕ, ◌≡◌, refl, sym, ◌∙◌, ap, subst, true, false, List, [], ◌∷◌, none, some, Str,
}
use transfer_queue.Prelude.Int.{pos}
use transfer_queue.Action.{Action, ok, pure, map_result}
use transfer_queue.Proto.{TrajectoryGroup, BatchWriteRequest, BatchReadRequest, BatchReadResult}
use transfer_queue.Platform.Formats.{formats, only-Sends, written-Sends}
use transfer_queue.Platform.Message.{Formats, Sends}
use transfer_queue.Platform.Sample.{Machine, machine}
use transfer_queue.BufferManager
use transfer_queue.BufferManager.{Server, Batches, merge_all}
use transfer_queue.BufferManager.Reading.{read_ready_groups_all}
use transfer_queue.BufferShard.Consume.{ready_of}
use transfer_queue.BufferManager.Sample.{
  trajectory, id_i, id_jj, group, server, server-Plain, arrange,
}
use transfer_queue.RpcHandler.{read_for}
use transfer_queue.Client.{TransferQueueClient, Session, make, connect, batch_write, batch_read}
use transfer_queue.Client.Calls.{network, batch_write_remote, batch_read_remote}
use transfer_queue.Client.Stream.{subscribe, start_loop, unsubscribe, Returned, pending}
use transfer_queue.Client.Resubscribed.{Stale, old_loop}
use transfer_queue.Client.Reach.{
  IsConsistent, Reachable, constructed, then, connecting, subscribing, Reachable-IsConsistent,
}

abbrev write_request : BatchWriteRequest ℕ
write_request = record { trajectories = trajectory id_jj ∷ trajectory id_i ∷ [] }

abbrev read_request : BatchReadRequest
read_request = record { max_groups = pos 0; block = false; timeout_ms = pos 0 }

abbrev result : BatchReadResult ℕ
result = record { success = true; message = []; groups = group ∷ []; meta_info = none }

abbrev sample : Formats ℕ
sample = formats write_request read_request result

abbrev order : Batches ℕ → Batches ℕ
order l = l

abbrev still : Action (Server Machine ℕ) (Unit {0})
still = pure tt

abbrev client : TransferQueueClient
client = record (make (b'h' ∷ []) 8890) { connected = true; rpc_proto = true; rpc_client = true }

batch_write_remote_example :
    batch_write sample
      (network machine 2 arrange order still 0 sample)
      write_request.trajectories
      (record { client = client; remote = server })
    ≡ (
      map_result pos
          (BufferManager.batch_write machine 2 arrange order write_request.trajectories server).0,
      record {
        client = client;
        remote =
            (BufferManager.batch_write machine 2 arrange order write_request.trajectories server).1;
      },
    )
batch_write_remote_example =
    batch_write_remote machine 2 arrange order still 0 sample write_request.trajectories client
      server refl (only-Sends write_request)
      (λ n e. written-Sends write_request read_request result n)

ok_injective : (a b : List (TrajectoryGroup ℕ)) → ok a ≡ ok b → a ≡ b
ok_injective a b e = cc

read_group :
    (read_for machine 2 arrange order still 0 sample read_request server).0 ≡ ok (group ∷ [])
unfolding read_for merge_all ready_of
read_group = ap (λ r. r.0) (read_ready_groups_all machine server server-Plain)

batch_read_remote_example :
    batch_read sample
      (network machine 2 arrange order still 0 sample)
      (pos 0)
      false
      (pos 0)
      (record { client = client; remote = server })
    ≡ (
      (read_for machine 2 arrange order still 0 sample read_request server).0,
      record {
        client = client;
        remote = (read_for machine 2 arrange order still 0 sample read_request server).1;
      },
    )
batch_read_remote_example =
    batch_read_remote machine 2 arrange order still 0 sample (pos 0) false (pos 0) client server
      refl (only-Sends read_request)
      (λ gs e.
        subst (λ l. Sends sample.batch_read_result (record result { groups = l }))
          (ok_injective (group ∷ []) gs (sym read_group ∙ e)) (only-Sends result))

-- A client that connects and subscribes.
abbrev dial : Str → ℕ → Action (Server Machine ℕ) (Unit {0})
dial host port = pure tt

abbrev open_stream : Str → Action (Server Machine ℕ) (Unit {0})
open_stream request = pure tt

-- The future of the callback is not ready when it is returned.
abbrev callback : TrajectoryGroup ℕ → Returned
callback g = pending

abbrev constructed_session : Session (Server Machine ℕ)
constructed_session = record { client = make (b'h' ∷ []) 8890; remote = server }

abbrev connected_session : Session (Server Machine ℕ)
connected_session = (connect dial constructed_session).1

abbrev subscribed : Session (Server Machine ℕ)
subscribed = (subscribe sample open_stream (pos 4) connected_session).1

reached : Reachable dial sample open_stream callback subscribed
reached =
    then (then (constructed (b'h' ∷ []) 8890 server) (connecting constructed_session))
      (subscribing (pos 4) connected_session)

subscribed_lem : (subscribed.client.connected ≡ true) × (subscribed.client.streaming_active ≡ true)
unfolding make connect subscribe start_loop
subscribed_lem = (refl, refl)

Reachable-IsConsistent_example : IsConsistent subscribed.client
Reachable-IsConsistent_example = Reachable-IsConsistent dial sample open_stream callback reached

again : (subscribe sample open_stream (pos 2) (unsubscribe subscribed).1).0 ≡ ok tt
unfolding make connect subscribe unsubscribe start_loop
again = refl

old_loop_example :
    (old : ℕ) × (new : ℕ) × ((unsubscribe subscribed).0 ≡ ok (some old))
    × Stale dial sample open_stream callback
        (subscribe sample open_stream (pos 2) (unsubscribe subscribed).1).1.client
        old
        new
old_loop_example =
    old_loop dial sample open_stream callback (pos 2) reached subscribed_lem.0 subscribed_lem.1
      again
