-- ===== src/ServerMain/Tests.antt =====
-- server/main.cc run on a machine in memory.
use transfer_queue.Prelude.{◌≡◌, refl, true, [], ◌∷◌, none, ltb, if◌then◌else◌, ℕ}
use transfer_queue.Prelude.Int.{pos}
use transfer_queue.Action.{Action, ok, err, io}
use transfer_queue.DiskStorage
use transfer_queue.DiskStorage.{Env}
use transfer_queue.BufferShard
use transfer_queue.BufferManager
use transfer_queue.BufferManager.{map_shards, each, build_shards}
use transfer_queue.Platform.Sample.{Machine, machine}
use transfer_queue.RpcHandler
use transfer_queue.ServerMain.{
  Options, HttpControl, sigint, sigterm, config_of, handle_signal, handle_signals, start_rpc,
  start_handlers, start_http, start_up, stop_rest, shut_down, main,
}
use transfer_queue.ServerMain.Outcome.{Outcome}

abbrev works : Action Machine (Unit {0})
works w = (ok tt, w)

-- A port that is never taken, and one that always is.
abbrev works_on : ℕ → Action Machine (Unit {0})
works_on port = works

abbrev taken : ℕ → Action Machine (Unit {0})
taken port w = (err (io 98), w)

-- Ports below 1024 are refused.
abbrev http : HttpControl Machine
http = record {
  start = works;
  set_routes = works;
  prometheus = works;
  register_routes = works;
  listen = λ port w. if ltb port 1024 then (err (io 13), w) else (ok tt, w);
  stop = works;
}

abbrev options : Options
options = record { http_port = 8889; rpc_port = 8890; group_size = pos 4 }

abbrev booted : Env Machine
booted = record { counter = 0; world = record { files = λ q. none; clock = 41 } }

-- Both signals come, and the server stops.
runs : (main machine 2 http works_on options (sigint ∷ sigterm ∷ []) booted).0 ≡ ok true
unfolding main start_up BufferManager.start map_shards each build_shards BufferShard.start
    DiskStorage.init start_rpc start_http start_handlers RpcHandler.start config_of handle_signals
    handle_signal shut_down stop_rest BufferManager.stop BufferShard.stop
runs = refl

-- The HTTP port is refused.
refused :
    (main machine 2 http works_on (record options { http_port = 80 }) [] booted).0 ≡ err (io 13)
unfolding main start_up BufferManager.start map_shards each build_shards BufferShard.start
    DiskStorage.init start_rpc start_http config_of start_handlers RpcHandler.start
refused = refl

-- The RPC port is taken.
unlistened : (main machine 2 http taken options [] booted).0 ≡ err (io 98)
unfolding main start_up BufferManager.start map_shards each build_shards BufferShard.start
    DiskStorage.init start_rpc start_http config_of start_handlers RpcHandler.start
unlistened = refl
