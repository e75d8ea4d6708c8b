-- ===== src/Client/Stream.antt =====
-- The subscription of client/client.cc: `subscribe`, its background loop, `unsubscribe` and the
-- destructor.
use transfer_queue.Prelude.{
  ℕ, suc, Bool, true, false, not, List, [], ◌∷◌, Option, none, some, ite, Str, ℕ_discrete,
  if◌then◌else◌, ◌&&◌,
}
use transfer_queue.Prelude.Int.{ℤ}
use transfer_queue.Action.{
  Action, Result, ok, err, parse_failed, stream_ended, io, already_subscribed, throw, ◌>>=◌, ◌>>◌,
}
use transfer_queue.Platform.Message.{Formats}
use transfer_queue.Proto.{TrajectoryGroup}
use transfer_queue.Client.{
  TransferQueueClient, Session, on_remote, self, become, when_connected, serialize,
}

-- The streaming state once the stream is open; the new loop waits for its first item.
unfoldable pub start_loop : TransferQueueClient → TransferQueueClient
start_loop c = record c {
  streaming_active = true;
  streaming_task = some c.next_loop;
  loops = c.next_loop ∷ c.loops;
  next_loop = suc c.next_loop;
}

module _ {S F : Type 0} (formats : Formats F) (open_stream : Str → Action S (Unit {0})) where
  -- `open_stream` makes the sink and calls `SUBSCRIBE` with the request.
  abbrev pub subscribe_unless : Bool → ℤ → Action (Session S) (Unit {0})
  subscribe_unless true prefetch_groups = throw already_subscribed
  subscribe_unless false prefetch_groups = do
    request ← serialize formats.subscribe_request (record { prefetch_groups = prefetch_groups })
    on_remote (open_stream request)
    c ← self
    become (start_loop c)

  unfoldable pub subscribe : ℤ → Action (Session S) (Unit {0})
  subscribe prefetch_groups =
      when_connected (λ s. subscribe_unless s.client.streaming_active prefetch_groups s)

-- What a loop gets: from its source, or the result of the future that its callback returned.
pub data Item : Type 0 where
  message : Str → Item
  ended broken : Item
  resolved : Result (Unit {0}) → Item

-- The future of a callback: ready when it is returned, or later.
pub data Returned : Type 0 where
  returned : Result (Unit {0}) → Returned
  pending : Returned

unfoldable pub waits : ℕ → List ℕ → Bool
waits id [] = false
waits id (k ∷ l) = ite (ℕ_discrete id k) true (waits id l)

unfoldable pub without : ℕ → List ℕ → List ℕ
without id [] = []
without id (k ∷ l) = let rest = without id l in ite (ℕ_discrete id k) rest (k ∷ rest)

-- What a loop can get: while the future of its callback is pending, the result of that, and
-- otherwise an item of the source, which keeps its items until then.
unfoldable pub accepts : Bool → Item → Bool
accepts true (message s) = false
accepts true ended = false
accepts true broken = false
accepts true (resolved r) = true
accepts false (message s) = true
accepts false ended = true
accepts false broken = true
accepts false (resolved r) = false

module _ {F : Type 0} (formats : Formats F) (callback : TrajectoryGroup F → Returned) where
  abbrev pub parsed_group : Option (TrajectoryGroup F) → Returned
  parsed_group none = returned (err parse_failed)
  parsed_group (some g) = callback g

  -- The body of the loop.
  unfoldable pub process : Item → Returned
  process (message s) = parsed_group (formats.trajectory_group.parse s)
  process ended = returned (err stream_ended)
  process broken = returned (err (io 5))
  process (resolved r) = returned r

  -- The end of a round: the loop goes on while the subscription is active; an exception ends the
  -- loop and the subscription.
  abbrev pub finish_round : Result (Unit {0}) → ℕ → TransferQueueClient → TransferQueueClient
  finish_round (ok _) id c =
      if c.streaming_active then c else record c { loops = without id c.loops }
  finish_round (err e) id c = record c { streaming_active = false; loops = without id c.loops }

  abbrev pub settle : Returned → ℕ → TransferQueueClient → TransferQueueClient
  settle (returned r) id c = finish_round r id c
  settle pending id c = record c { callbacks = id ∷ c.callbacks }

  -- A loop gets an item.
  unfoldable pub receive : ℕ → Item → TransferQueueClient → TransferQueueClient
  receive id item c =
      if waits id c.loops && accepts (waits id c.callbacks) item
      then settle (process item) id (record c { callbacks = without id c.callbacks })
      else c

-- The loop that the returned future waits for, if any.
unfoldable pub unsubscribe : {S : Type 0} → Action (Session S) (Option ℕ)
unsubscribe = when_connected (λ s.
    if s.client.streaming_active
    then (
      ok s.client.streaming_task,
      record s { client = record s.client { streaming_active = false } },
    )
    else (ok none, s))

-- Whether that future is ready.
unfoldable pub is_ready : Option ℕ → TransferQueueClient → Bool
is_ready none c = true
is_ready (some id) c = not (waits id c.loops)

-- The destructor ends the subscription and waits for nothing.
unfoldable pub destroy : TransferQueueClient → TransferQueueClient
destroy c = if c.streaming_active then record c { streaming_active = false } else c
