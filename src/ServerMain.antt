-- ===== src/ServerMain.antt =====
-- server/main.cc: the start of the process, its signals, and its end. The HTTP server with its
-- Prometheus routes and the listening of an RPC server are the library's: parameters. An exception leaves `main`, and everything stays
-- as it is then.
pub mod Listening
pub mod Outcome
mod Tests
use transfer_queue.Prelude.{
  ℕ, zero, suc, Bool, true, false, not, List, [], ◌∷◌, map, replicate, Str, if◌then◌else◌,
}
use transfer_queue.Prelude.Int.{ℤ}
use transfer_queue.Action.{Action, Result, ok, err, pure, continue, ◌>>=◌, ◌>>◌}
use transfer_queue.Platform.{Double}
use transfer_queue.Platform.Runtime.{Runtime}
use transfer_queue.Config.{TransferQueueConfig, default_config}
use transfer_queue.DiskStorage.{Env}
use transfer_queue.BufferManager
use transfer_queue.BufferManager.{Server}
use transfer_queue.Metrics.{Gauge, register_metrics}
use transfer_queue.RpcHandler
use transfer_queue.RpcHandler.{RpcHandler}

-- The options of the command line, after `app_template` has read them.
pub record Options : Type 0 where
  pub http_port : ℕ
  pub rpc_port : ℕ
  pub group_size : ℤ

-- `parse_config`, which looks at no argument.
unfoldable pub parse_config : {F : Type 0} → Double F → List Str → TransferQueueConfig F
parse_config d argv = default_config d

unfoldable pub config_of : {F : Type 0} → Double F → Options → TransferQueueConfig F
config_of d options = record (default_config d) {
  http_port = options.http_port;
  rpc_port = options.rpc_port;
  group_size = options.group_size;
}

-- `http_server_control` and `seastar::prometheus`; `register_routes` runs that of the handler on every core.
pub record HttpControl (W : Type 0) : Type 0 where
  pub start : Action W (Unit {0})
  pub set_routes : Action W (Unit {0})
  pub prometheus : Action W (Unit {0})
  pub register_routes : Action W (Unit {0})
  pub listen : ℕ → Action W (Unit {0})
  pub stop : Action W (Unit {0})

-- The manager with the world, and what `metrics` and `rpc_handler` have on each core.
pub record Process (W F : Type 0) : Type 0 where
  pub server : Server W F
  pub metrics : List (List (Gauge F))
  pub rpc_handlers : List RpcHandler

module _ {W F : Type 0} where
  abbrev pub on_manager : {A : Type 0} → Action (Server W F) A → Action (Process W F) A
  on_manager m p = ((m p.server).0, record p { server = (m p.server).1 })

  abbrev pub on_http : {A : Type 0} → Action W A → Action (Process W F) A
  on_http m p =
      let r = m p.server.env.world in
      (r.0, record p { server = record p.server { env = record p.server.env { world = r.1 } } })

  abbrev pub change : (Process W F → Process W F) → Action (Process W F) (Unit {0})
  change f p = (ok tt, f p)

  -- `std::make_shared<BufferManager>(config)`.
  abbrev pub with_manager : TransferQueueConfig F → Env W → Process W F
  with_manager cfg env = record {
    server = record { manager = record { config = cfg; shards = [] }; env = env };
    metrics = [];
    rpc_handlers = [];
  }

-- The two signals that stop the server, `stopping`, and how often `stop_signal` was set.
pub data Signal : Type 0 where
  sigint sigterm : Signal

pub record Stopping : Type 0 where
  pub stopping : Bool
  pub stop_signal : ℕ

abbrev pub quiet : Stopping
quiet = record { stopping = false; stop_signal = 0 }

-- Both signals have the same handler.
unfoldable pub handle_signal : Signal → Stopping → Stopping
handle_signal signal s =
    if not s.stopping then record { stopping = true; stop_signal = suc s.stop_signal } else s

unfoldable pub handle_signals : List Signal → Stopping → Stopping
handle_signals [] s = s
handle_signals (signal ∷ signals) s = handle_signals signals (handle_signal signal s)

-- Of two results, the first exception.
abbrev pub both : Result (Unit {0}) → Result (Unit {0}) → Result (Unit {0})
both (ok u) r = r
both (err e) r = err e

-- `count` is `seastar::smp::count`.
module _ {W H F : Type 0} (rt : Runtime W H F) (count : ℕ) (http : HttpControl W)
    (rpc_listen : ℕ → Action W (Unit {0})) where
  -- `rpc_handler.invoke_on_all` runs on every core, whatever fails on another; its exception is the
  -- first one.
  unfoldable pub start_handlers : ℕ → List RpcHandler → W → Result (Unit {0}) × List RpcHandler × W
  start_handlers port [] w = (ok tt, [], w)
  start_handlers port (h ∷ l) w =
      let r = RpcHandler.start rpc_listen port (h, w) in
      let rs = start_handlers port l r.1.1 in (both r.0 rs.0, r.1.0 ∷ rs.1, rs.2)

  abbrev pub listen_all : ℕ → Action (Process W F) (Unit {0})
  listen_all port p =
      let r = start_handlers port p.rpc_handlers p.server.env.world in
      (
        r.0,
        record p {
          rpc_handlers = r.1;
          server = record p.server { env = record p.server.env { world = r.2 } };
        },
      )

  -- `sharded::start` makes an object for each core: the metrics and the RPC servers, once the manager runs.
  unfoldable pub start_rpc : TransferQueueConfig F → Action (Process W F) (Unit {0})
  start_rpc cfg = do
    change (λ p. record p { metrics = replicate count (register_metrics rt cfg) })
    change (λ p. record p { rpc_handlers = replicate count RpcHandler.make })
    listen_all cfg.rpc_port

  unfoldable pub start_http : TransferQueueConfig F → Action W (Unit {0})
  start_http cfg = do
    http.start
    http.set_routes
    http.prometheus
    http.register_routes
    http.listen cfg.http_port

  unfoldable pub start_up : TransferQueueConfig F → Action (Process W F) (Unit {0})
  start_up cfg = do
    on_manager (BufferManager.start rt count)
    start_rpc cfg
    on_http (start_http cfg)

  -- After the HTTP server: `sharded::stop` stops the object of each core and destroys it.
  unfoldable pub stop_rest : Action (Process W F) (Unit {0})
  stop_rest = do
    change (λ p. record p { rpc_handlers = map RpcHandler.stop p.rpc_handlers })
    change (λ p. record p { rpc_handlers = [] })
    change (λ p. record p { metrics = [] })
    on_manager (BufferManager.stop rt count)

  unfoldable pub shut_down : Action (Process W F) (Unit {0})
  shut_down = do on_http http.stop; stop_rest

  -- `stop_signal.get_future().get()` and what follows; false while it waits.
  abbrev pub after_signal : ℕ → Action (Process W F) Bool
  after_signal zero = pure false
  after_signal (suc n) = do shut_down; pure true

  -- The body of `main`, with the signals that come once it serves.
  unfoldable pub main : Options → List Signal → Env W → Result Bool × Process W F
  main options signals env =
      let cfg = config_of rt.double options in
      continue (start_up cfg (with_manager cfg env))
        (λ u. after_signal (handle_signals signals quiet).stop_signal)
