-- ===== src/ServerMain/Listening.antt =====
-- The start of the RPC servers of all cores in server/main.cc.
use transfer_queue.Prelude.{
  ℕ, zero, suc, ◌≡◌, refl, ap, ◌⊎◌, inl, inr, none, some, replicate, true, List, [], ◌∷◌, All,
  length,
}
use transfer_queue.Action.{Action, Result, Error, ok, err}
use transfer_queue.Platform.Runtime.{Runtime}
use transfer_queue.RpcHandler
use transfer_queue.RpcHandler.{RpcHandler, Listener, served}
use transfer_queue.ServerMain.{HttpControl, both, start_handlers}

-- A handler whose server runs on a port.
abbrev pub RunsOn : ℕ → RpcHandler → Type 0
RunsOn port h = h.rpc_server ≡ some (record { port = port; running = true })

-- A handler whose server runs on a port, or that has none.
abbrev pub MayRunOn : ℕ → RpcHandler → Type 0
MayRunOn port h = RunsOn port h ⊎ (h.rpc_server ≡ none)

module _ {W : Type 0} (rpc_listen : ℕ → Action W (Unit {0})) where
  -- What the start of the RPC servers gives: all run, or listening failed on some core.
  pub data Listened (port n : ℕ) : Result (Unit {0}) → List RpcHandler → Type 0 where
    listening :
        {l : List RpcHandler} → All (RunsOn port) l → length l ≡ n → Listened port n (ok tt) l
    deaf :
        {e : Error} {l : List RpcHandler} (w : W)
        → (rpc_listen port w).0 ≡ err e
        → All (MayRunOn port) l
        → length l ≡ n
        → Listened port n (err e) l

  may_run : (port : ℕ) (l : List RpcHandler) → All (RunsOn port) l → All (MayRunOn port) l
  may_run port [] a = tt
  may_run port (h ∷ l) a = (inl a.0, may_run port l a.1)

  all_may_run :
      {port n : ℕ} {r : Result (Unit {0})} {l : List RpcHandler}
      → Listened port n r l
      → All (MayRunOn port) l × (length l ≡ n)
  all_may_run (listening {l} a size) = (may_run _ l a, size)
  all_may_run (deaf w f a size) = (a, size)

  Listened-cons :
      (port n : ℕ) (first r : Result (Unit {0})) (w : W) (l : List RpcHandler)
      → (rpc_listen port w).0 ≡ first
      → Listened port n r l
      → Listened port (suc n) (both first r) (served port RpcHandler.make first ∷ l)
  unfolding RpcHandler.make
  Listened-cons port n (err e) r w l f rest =
      let (a, size) = all_may_run rest in deaf w f (inr refl, a) (ap suc size)
  Listened-cons port n (ok u) _ w l f (listening a size) = listening (refl, a) (ap suc size)
  Listened-cons port n (ok u) _ w l f (deaf w' f' a size) = deaf w' f' (inl refl, a) (ap suc size)

module _ {W H F : Type 0} (rt : Runtime W H F) (count : ℕ) (http : HttpControl W)
    (rpc_listen : ℕ → Action W (Unit {0})) where
  -- Every core tries to listen, whatever happens on the others.
  pub start_handlers-Listened :
      (port n : ℕ) (w : W)
      → let r = start_handlers rt count http rpc_listen port (replicate n RpcHandler.make) w in
        Listened rpc_listen port n r.0 r.1
  unfolding start_handlers RpcHandler.start
  start_handlers-Listened port zero w = listening tt refl
  start_handlers-Listened port (suc n) w =
      Listened-cons rpc_listen port n (rpc_listen port w).0 _ w _ refl
        (start_handlers-Listened port n (rpc_listen port w).1)
