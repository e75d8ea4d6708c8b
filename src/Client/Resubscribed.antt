-- ===== src/Client/Resubscribed.antt =====
-- The loop of an earlier subscription of client/client.cc next to that of the next one.
use transfer_queue.Prelude.{
  ℕ, ◌<◌, ◌≡◌, ◌≢◌, refl, sym, subst, ◌∙◌, true, false, some, none, [], ◌∷◌, List, Str, ℕ_discrete,
  arith, if_pos,
}
use transfer_queue.Prelude.Int.{ℤ}
use transfer_queue.Action.{Action, ok, err, Error}
use transfer_queue.Platform.Message.{Formats}
use transfer_queue.Proto.{TrajectoryGroup}
use transfer_queue.Client.{TransferQueueClient, Session}
use transfer_queue.Client.Stream.{
  start_loop, subscribe, Item, Returned, returned, waits, without, accepts, process, receive,
  unsubscribe,
}
use transfer_queue.Client.Loops.{without-waits_self, waits-push, without-waits_other}
use transfer_queue.Client.Reach.{waits_from, Reachable, Reachable-IsConsistent}

waits-waits_from : (n id : ℕ) (l : List ℕ) → waits_from n l ≡ false → waits id l ≡ true → id < n
unfolding waits waits_from
waits-waits_from n id [] a h = absurd (ground (arith, h))
waits-waits_from n id (k ∷ l) a h = ground (arith, a, h, waits-waits_from n id l)

module _ {S F : Type 0} (make_rpc_client : Str → ℕ → Action S (Unit {0})) (formats : Formats F)
    (open_stream : Str → Action S (Unit {0})) (callback : TrajectoryGroup F → Returned) where
  -- A subscription that succeeds starts a loop.
  subscribe-start_loop :
      (n : ℤ) (s : Session S)
      → s.client.connected ≡ true
      → s.client.streaming_active ≡ false
      → (subscribe formats open_stream n s).0 ≡ ok tt
      → (subscribe formats open_stream n s).1.client ≡ start_loop s.client
  unfolding subscribe
  subscribe-start_loop n s on off h = ground (arith, on, off, h)

  -- An old loop next to a new one that the client has subscribed with since.
  pub record Stale (c : TransferQueueClient) (old new : ℕ) : Type 0 where
    pub task : c.streaming_task ≡ some new
    pub apart : old ≢ new
    pub connected : c.connected ≡ true
    pub active : c.streaming_active ≡ true
    pub both : (waits old c.loops ≡ true) × (waits new c.loops ≡ true)
    -- A good item keeps the old loop.
    pub survives :
        (item : Item)
        → accepts (waits old c.callbacks) item ≡ true
        → process formats callback item ≡ returned (ok tt)
        → let c' = receive formats callback old item c in
          (c'.streaming_active ≡ true) × (waits old c'.loops ≡ true) × (waits new c'.loops ≡ true)
    -- An item that the old loop fails on ends the new subscription while the new loop runs.
    pub breaks :
        (item : Item) (e : Error) (remote : S)
        → accepts (waits old c.callbacks) item ≡ true
        → process formats callback item ≡ returned (err e)
        → let c' = receive formats callback old item c in
          (c'.streaming_active ≡ false)
          × (waits old c'.loops ≡ false)
          × (waits new c'.loops ≡ true)
          × ((unsubscribe (record { client = c'; remote = remote })).0 ≡ ok none)

  waits_self : (id : ℕ) (l : List ℕ) → waits id (id ∷ l) ≡ true
  unfolding waits
  waits_self id l = if_pos (ℕ_discrete id id) refl _ _

  without-waits_new : (id new : ℕ) (l : List ℕ) → new ≢ id → waits new (without id (new ∷ l)) ≡ true
  without-waits_new id new l away = without-waits_other new id (new ∷ l) away ∙ waits_self new l

  start_loop-Stale :
      (c : TransferQueueClient) (old : ℕ)
      → c.connected ≡ true
      → waits old c.loops ≡ true
      → old < c.next_loop
      → Stale (start_loop c) old c.next_loop
  unfolding start_loop receive unsubscribe
  start_loop-Stale c old on h small =
      let there : waits old (c.next_loop ∷ c.loops) ≡ true = waits-push old c h in
      let new_there : waits c.next_loop (c.next_loop ∷ c.loops) ≡ true =
        waits_self c.next_loop c.loops in
      record {
        task = refl;
        apart = λ e. absurd (omega (arith, e, small));
        connected = on;
        active = refl;
        both = (there, new_there);
        survives = λ item a e. rw (there, a, e) (refl, there, new_there);
        breaks = λ item x remote a e.
            rw (there, a, e)
              (
                refl,
                without-waits_self old (c.next_loop ∷ c.loops),
                without-waits_new old c.next_loop c.loops (λ q. absurd (omega (arith, q, small))),
                rw (on) refl,
              );
      }

  -- A client that is connected and subscribed ends its subscription and, without waiting for the
  -- future, subscribes again with success. Then the old loop runs next to the new one and is not told
  -- from it: it goes on with every group that its callback answers well, and an item that it fails on
  -- ends the new subscription, so that a further `unsubscribe` returns a ready future although the new
  -- loop still runs.
  pub old_loop :
      {s : Session S} (n : ℤ)
      → Reachable make_rpc_client formats open_stream callback s
      → s.client.connected ≡ true
      → s.client.streaming_active ≡ true
      → (subscribe formats open_stream n (unsubscribe s).1).0 ≡ ok tt
      → (old : ℕ) × (new : ℕ) × ((unsubscribe s).0 ≡ ok (some old))
        × Stale (subscribe formats open_stream n (unsubscribe s).1).1.client old new
  unfolding unsubscribe
  old_loop {s} n r on active h =
      let w = Reachable-IsConsistent make_rpc_client formats open_stream callback r in
      let (old, task, runs) = w.received active in
      let s' = (unsubscribe s).1 in
      let c : TransferQueueClient = record s.client { streaming_active = false } in
      let same : s'.client ≡ c = rw (on, active) refl in
      let on' : s'.client.connected ≡ true = rw (on, active) refl in
      let off : s'.client.streaming_active ≡ false = rw (on, active) refl in
      (
        old,
        s.client.next_loop,
        rw (on, active, task) refl,
        subst (λ c. Stale c old s.client.next_loop) (sym (subscribe-start_loop n s' on' off h))
            (subst (λ c. Stale (start_loop c) old s.client.next_loop) (sym same)
              (start_loop-Stale c old on runs
                (waits-waits_from s.client.next_loop old s.client.loops w.fresh runs))),
      )
