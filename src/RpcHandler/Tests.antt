-- ===== src/RpcHandler/Tests.antt =====
-- The serialiser of server/rpc_handler.h on concrete values.
use transfer_queue.Prelude.{ℕ, ◌^◌, ◌≡◌, refl, true, false, none, some, List, [], ◌∷◌, Str, arith}
use transfer_queue.Prelude.Int.{pos, negsuc}
use transfer_queue.Action.{Action, Result, ok, pure}
use transfer_queue.Platform.Formats.{formats}
use transfer_queue.Platform.Message.{Formats}
use transfer_queue.Platform.Sample.{Machine, machine}
use transfer_queue.BufferManager.{Server, Batches}
use transfer_queue.BufferManager.Sample.{server, arrange}
use transfer_queue.RpcHandler.{Stream, serialize_proto, prefetch_of, handle_subscribe}
use transfer_queue.RpcHandler.Subscribe.{Pushed, read_rounds, handle_subscribe-Pushed}
use transfer_queue.Platform.Codec.{serialize, parse, parse-serialize}
use transfer_queue.Proto.{TrajectoryGroup}
use transfer_queue.RpcHandler.Serializer.{bytes_le, to_word, write_message, read_message}
use transfer_queue.RpcHandler.RoundTrip.{Travels, message-Travels}

-- Little endian.
bytes_of_1000 : bytes_le 4 1000 ≡ 232 ∷ 3 ∷ 0 ∷ 0 ∷ []
unfolding bytes_le
bytes_of_1000 = refl

-- Two's complement.
bytes_of_minus_one : bytes_le 4 (to_word (2 ^ 32) (negsuc 0)) ≡ 255 ∷ 255 ∷ 255 ∷ 255 ∷ []
unfolding bytes_le to_word
bytes_of_minus_one = refl

abbrev hello : Str
hello = b'h' ∷ b'i' ∷ []

abbrev group : TrajectoryGroup ℕ
group = record { instance_id = hello; trajectories = []; group_size = pos 1; is_complete = true }

abbrev group_bytes : Str
group_bytes = 0 ∷ 1 ∷ 0 ∷ 1 ∷ 2 ∷ b'h' ∷ b'i' ∷ 0 ∷ []

serialized : serialize group ≡ some group_bytes
unfolding serialize
serialized = refl

message-Travels_example :
    Travels (write_message serialize parse) (read_message serialize parse) group
message-Travels_example =
    message-Travels serialize parse group group_bytes serialized
      (parse-serialize group group_bytes serialized) (omega arith)

-- A subscription to a server with one group, whose sink takes everything.
abbrev order : Batches ℕ → Batches ℕ
order l = l

abbrev still : Action (Server Machine ℕ) (Unit {0})
still = pure tt

abbrev accept : List Str → Str → Result (Unit {0})
accept sent msg = ok tt

abbrev sample : Formats ℕ
sample =
    formats (record { trajectories = [] })
      (record { max_groups = pos 0; block = false; timeout_ms = pos 0 })
      (record { success = true; message = []; groups = []; meta_info = none })

abbrev listening : Stream Machine ℕ
listening = record { server = server; sent = [] }

handle_subscribe-Pushed_example :
    Pushed
      (serialize_proto sample.trajectory_group)
      []
      (read_rounds machine 2 arrange order still 5 sample 3
        (prefetch_of machine 2 arrange order still 5 sample (pos 4))
        server)
      (handle_subscribe machine 2 arrange order still 5 sample accept 3 (0 ∷ 4 ∷ []) listening)
handle_subscribe-Pushed_example =
    handle_subscribe-Pushed machine 2 arrange order still 5 sample accept 3 (0 ∷ 4 ∷ [])
      (record { prefetch_groups = pos 4 }) listening refl
