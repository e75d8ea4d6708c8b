-- ===== src/Client/Reach.antt =====
-- The states that a client of client/client.cc reaches, and what its operations promise in them.
use transfer_queue.Prelude.{
  ℕ, ◌≡◌, refl, true, some, Str, arith, List, [], ◌∷◌, suc, Bool, false, leb, ◌||◌,
}
use transfer_queue.Prelude.Int.{ℤ}
use transfer_queue.Action.{Action}
use transfer_queue.Platform.Message.{Formats}
use transfer_queue.Proto.{TrajectoryGroup}
use transfer_queue.Client.{TransferQueueClient, Session, make, connect, close}
use transfer_queue.Client.Stream.{
  start_loop, subscribe, Item, Returned, waits, without, receive, unsubscribe,
}

-- Whether a loop runs that has a number from `n` on.
unfoldable pub waits_from : ℕ → List ℕ → Bool
waits_from n [] = false
waits_from n (k ∷ l) = leb n k || waits_from n l

waits_from-suc : (n : ℕ) (l : List ℕ) → waits_from n l ≡ false → waits_from (suc n) l ≡ false
unfolding waits_from
waits_from-suc n [] h = refl
waits_from-suc n (k ∷ l) h = ground (arith, h, waits_from-suc n l)

waits_from-without :
    (n id : ℕ) (l : List ℕ) → waits_from n l ≡ false → waits_from n (without id l) ≡ false
unfolding waits_from without
waits_from-without n id [] h = refl
waits_from-without n id (k ∷ l) h = ground (arith, h, waits_from-without n id l)

-- What holds of a client between its operations: `connected_` tells whether there is an RPC client,
-- an active subscription has a loop that runs, and no loop has the number of the next one.
pub record IsConsistent (c : TransferQueueClient) : Type 0 where
  pub linked : c.connected ≡ c.rpc_client
  pub spoken : c.rpc_client ≡ true → c.rpc_proto ≡ true
  pub received :
      c.streaming_active ≡ true
      → (id : ℕ) × (c.streaming_task ≡ some id) × (waits id c.loops ≡ true)
  pub fresh : waits_from c.next_loop c.loops ≡ false

module _ {S F : Type 0} (make_rpc_client : Str → ℕ → Action S (Unit {0})) (formats : Formats F)
    (open_stream : Str → Action S (Unit {0})) (callback : TrajectoryGroup F → Returned) where
  -- What may happen to a client: a call of an operation, an item for a loop, or a change of what is
  -- on the other side.
  pub data Step : Session S → Session S → Type 0 where
    connecting : (s : Session S) → Step s (connect make_rpc_client s).1
    closing : (s : Session S) → Step s (close s).1
    subscribing :
        (prefetch_groups : ℤ) (s : Session S)
        → Step s (subscribe formats open_stream prefetch_groups s).1
    unsubscribing : (s : Session S) → Step s (unsubscribe s).1
    receiving :
        (id : ℕ) (item : Item) (s : Session S)
        → Step s (record s { client = receive formats callback id item s.client })
    serving : (r : S) (s : Session S) → Step s (record s { remote = r })

  -- The sessions of a client that has been constructed for a host and a port.
  pub data Reachable : Session S → Type 0 where
    constructed :
        (host : Str) (port : ℕ) (r : S) → Reachable (record { client = make host port; remote = r })
    then : {s t : Session S} → Reachable s → Step s t → Reachable t

  make-IsConsistent : (host : Str) (port : ℕ) → IsConsistent (make host port)
  unfolding make waits_from
  make-IsConsistent host port = ground arith

  connect-IsConsistent :
      (s : Session S) → IsConsistent s.client → IsConsistent (connect make_rpc_client s).1.client
  unfolding connect
  connect-IsConsistent s w = ground arith

  close-IsConsistent : (s : Session S) → IsConsistent s.client → IsConsistent (close s).1.client
  unfolding close
  close-IsConsistent s w = ground arith

  start_loop-IsConsistent : (c : TransferQueueClient) → IsConsistent c → IsConsistent (start_loop c)
  unfolding start_loop waits waits_from
  start_loop-IsConsistent c w = record {
    linked = w.linked;
    spoken = w.spoken;
    received = λ _. (c.next_loop, refl, ground arith);
    fresh = ground (arith, waits_from-suc c.next_loop c.loops w.fresh);
  }

  subscribe-IsConsistent :
      (n : ℤ) (s : Session S)
      → IsConsistent s.client
      → IsConsistent (subscribe formats open_stream n s).1.client
  unfolding subscribe
  subscribe-IsConsistent n s w = ground (arith, start_loop-IsConsistent s.client w)

  unsubscribe-IsConsistent :
      (s : Session S) → IsConsistent s.client → IsConsistent (unsubscribe s).1.client
  unfolding unsubscribe
  unsubscribe-IsConsistent s w = ground arith

  receive-IsConsistent :
      (id : ℕ) (item : Item) (c : TransferQueueClient)
      → IsConsistent c
      → IsConsistent (receive formats callback id item c)
  unfolding receive
  receive-IsConsistent id item c w =
      ground (arith, waits_from-without c.next_loop id c.loops w.fresh)

  Step-IsConsistent : {s t : Session S} → Step s t → IsConsistent s.client → IsConsistent t.client
  Step-IsConsistent (connecting s) w = connect-IsConsistent s w
  Step-IsConsistent (closing s) w = close-IsConsistent s w
  Step-IsConsistent (subscribing n s) w = subscribe-IsConsistent n s w
  Step-IsConsistent (unsubscribing s) w = unsubscribe-IsConsistent s w
  Step-IsConsistent (receiving id item s) w = receive-IsConsistent id item s.client w
  Step-IsConsistent (serving r s) w = w

  -- Every session that a client reaches is consistent: `connected_` tells whether there is an RPC
  -- client, which has its protocol, an active subscription has a loop that runs and that its task
  -- stands for, and no loop that runs has the number of the next one.
  pub Reachable-IsConsistent : {s : Session S} → Reachable s → IsConsistent s.client
  Reachable-IsConsistent (constructed host port r) = make-IsConsistent host port
  Reachable-IsConsistent (then r st) = Step-IsConsistent st (Reachable-IsConsistent r)
