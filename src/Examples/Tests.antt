-- ===== src/Examples/Tests.antt =====
-- The write example against a server with two shards.
use transfer_queue.Prelude.{ℕ, true, false, none, [], ◌∷◌, Str}
use transfer_queue.Prelude.Int.{pos}
use transfer_queue.Action.{Action, pure}
use transfer_queue.Proto.{BatchWriteRequest, BatchReadRequest, BatchReadResult}
use transfer_queue.Platform.Formats.{formats}
use transfer_queue.Platform.Message.{Formats}
use transfer_queue.Platform.Sample.{Machine, machine}
use transfer_queue.BufferManager
use transfer_queue.BufferManager.{Server, Batches}
use transfer_queue.Examples.{sample_trajectory}

abbrev write_request : BatchWriteRequest ℕ
write_request = record { trajectories = sample_trajectory machine.double ∷ [] }

abbrev read_request : BatchReadRequest
read_request = record { max_groups = pos 5; block = false; timeout_ms = pos 0 }

abbrev result : BatchReadResult ℕ
result = record { success = true; message = []; groups = []; meta_info = none }

abbrev sample : Formats ℕ
sample = formats write_request read_request result

abbrev order : Batches ℕ → Batches ℕ
order l = l

abbrev still : Action (Server Machine ℕ) (Unit {0})
still = pure tt

abbrev dial : Str → ℕ → Action (Server Machine ℕ) (Unit {0})
dial host port = pure tt
