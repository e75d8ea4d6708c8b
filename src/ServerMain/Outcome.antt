-- ===== src/ServerMain/Outcome.antt =====
-- How the process of server/main.cc ends.
use transfer_queue.Prelude.{ℕ, ◌≡◌, ◌⊎◌, Bool, true, false, List, [], All, length}
use transfer_queue.Action.{Action, Result, Error, ok, err}
use transfer_queue.Platform.Runtime.{Runtime}
use transfer_queue.Config.{TransferQueueConfig}
use transfer_queue.DiskStorage.{Env}
use transfer_queue.BufferShard
use transfer_queue.BufferShard.{BufferShard}
use transfer_queue.BufferManager
use transfer_queue.BufferManager.Sharded.{IsSharded}
use transfer_queue.RpcHandler.{RpcHandler}
use transfer_queue.ServerMain.Listening.{RunsOn, MayRunOn}
use transfer_queue.ServerMain.{
  Options, HttpControl, Process, Signal, quiet, config_of, handle_signals, with_manager, start_http,
}

module _ {W H F : Type 0} (rt : Runtime W H F) (count : ℕ) where
  -- The manager has a shard for each core and the configuration of the options, and each core has
  -- metrics and an RPC handler.
  pub record Manages (Handles : RpcHandler → Type 0) (cfg : TransferQueueConfig F) (p : Process W F)
      : Type 0 where
    pub config : p.server.manager.config ≡ cfg
    pub sharded : IsSharded rt count p.server.manager
    pub cores : length p.rpc_handlers ≡ count
    pub metrics : length p.metrics ≡ count
    pub handles : All Handles p.rpc_handlers

  -- On each core there is an RPC server that runs on the port of the options.
  abbrev pub Serves : TransferQueueConfig F → Process W F → Type 0
  Serves cfg p = Manages (RunsOn cfg.rpc_port) cfg p

  pub data Outcome (http : HttpControl W) (rpc_listen : ℕ → Action W (Unit {0})) (options : Options)
      (signals : List Signal) (env : Env W) : Result Bool × Process W F → Type 0 where
    -- The manager did not start.
    unstarted :
        {e : Error} {p : Process W F}
        → (BufferManager.start rt count (with_manager (config_of rt.double options) env).server).0
          ≡ err e
        → p.rpc_handlers ≡ []
        → Outcome http rpc_listen options signals env (err e, p)
    -- An RPC server did not start.
    unlistened :
        {e : Error} {p : Process W F} (w : W)
        → (rpc_listen options.rpc_port w).0 ≡ err e
        → Manages (MayRunOn options.rpc_port) (config_of rt.double options) p
        → Outcome http rpc_listen options signals env (err e, p)
    -- The HTTP server did not start, or did not stop.
    failed :
        {e : Error} {p : Process W F} (w : W)
        → ((start_http rt count http rpc_listen (config_of rt.double options) w).0 ≡ err e)
          ⊎ ((http.stop w).0 ≡ err e)
        → Serves (config_of rt.double options) p
        → Outcome http rpc_listen options signals env (err e, p)
    waiting :
        {p : Process W F}
        → signals ≡ []
        → Serves (config_of rt.double options) p
        → Outcome http rpc_listen options signals env (ok false, p)
    closed :
        {p : Process W F}
        → (handle_signals signals quiet).stop_signal ≡ 1
        → p.rpc_handlers ≡ []
        → p.metrics ≡ []
        → p.server.manager.shards ≡ []
        → Outcome http rpc_listen options signals env (ok true, p)

  module _ (http : HttpControl W) (rpc_listen : ℕ → Action W (Unit {0}))
      (cfg : TransferQueueConfig F) where
    -- How the start ends.
    data Started (first : Result (Unit {0})) : Result (Unit {0}) × Process W F → Type 0 where
      no_manager :
          {e : Error} {p : Process W F}
          → first ≡ err e
          → p.rpc_handlers ≡ []
          → Started first (err e, p)
      no_rpc :
          {e : Error} {p : Process W F} (w : W)
          → (rpc_listen cfg.rpc_port w).0 ≡ err e
          → Manages (MayRunOn cfg.rpc_port) cfg p
          → Started first (err e, p)
      no_http :
          {e : Error} {p : Process W F} (w : W)
          → (start_http rt count http rpc_listen cfg w).0 ≡ err e
          → Serves cfg p
          → Started first (err e, p)
      ready : {p : Process W F} → Serves cfg p → Started first (ok tt, p)

    -- How the end ends.
    data Stopped : Result (Unit {0}) × Process W F → Type 0 where
      kept :
          {e : Error} {p : Process W F} (w : W)
          → (http.stop w).0 ≡ err e
          → Serves cfg p
          → Stopped (err e, p)
      released :
          {p : Process W F}
          → p.rpc_handlers ≡ []
          → p.metrics ≡ []
          → p.server.manager.shards ≡ []
          → Stopped (ok tt, p)

  module _ (http : HttpControl W) (rpc_listen : ℕ → Action W (Unit {0})) (options : Options) where
    abbrev cfg : TransferQueueConfig F
    cfg = config_of rt.double options
