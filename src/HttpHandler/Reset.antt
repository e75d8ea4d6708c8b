-- ===== src/HttpHandler/Reset.antt =====
-- `POST /buffer/reset` and `DELETE /buffer/instance` of server/http_handler.cc, and what an RPC
-- client sees after the first.
use native.Mathlib.Nat.{mod-lt}
use transfer_queue.Prelude.{
  ℕ, ◌≡◌, ◌≢◌, ◌<◌, refl, sym, ap, ◌∙◌, subst, true, [], ◌∷◌, Option, none, some, Str, arith,
  Str-discrete, if_pos, if_neg,
}
use transfer_queue.Action.{Action, Result, ok, err, Error, pure, continue}
use transfer_queue.Platform.Runtime.{Runtime}
use transfer_queue.Platform.Message.{Formats, Sends}
use transfer_queue.Proto.{BufferStatus, get_status_request}
use transfer_queue.BufferShard.{Core}
use transfer_queue.BufferShard.{BufferShard}
use transfer_queue.BufferShard.Groups.{GroupMap, find}
use transfer_queue.BufferShard.Deletes.{delete_instance-Deleted}
use transfer_queue.BufferShard.Manage
use transfer_queue.BufferManager
use transfer_queue.BufferManager.{Server, Batches, shard_for}
use transfer_queue.BufferManager.Routing.{nth, invoke_on-Routed}
use transfer_queue.BufferManager.Sharded.{IsSharded}
use transfer_queue.BufferManager.Emptying.{Zero, reset-Zero}
use transfer_queue.Client.{TransferQueueClient, get_status}
use transfer_queue.Client.Calls.{network, get_status_remote}
use transfer_queue.HttpHandler.{
  Json, Request, Reply, Route, post_reset, fresh_reply, handled, handled_moved, handle_reset,
  handle_delete_instance, delete_for, route, json_reply, error_reply, reply_options, bad_request,
}
use transfer_queue.HttpHandler.Texts.{missing_instance_id, instance_deleted}
use transfer_queue.HttpHandler.Replies.{text_of, body_of_lem}

handled_state :
    {S : Type 0} (what : Error → Option Str) (r : Result Reply × S) → (handled what r).1 ≡ r.1
handled_state what (ok rep, s) = refl
handled_state what (err e, s) = refl

pure_state :
    {A B S : Type 0} (f : A → B) (r : Result A × S) → (continue r (λ a. pure (f a))).1 ≡ r.1
pure_state f (ok a, s) = refl
pure_state f (err e, s) = refl

pair_lem : {A S : Type 0} {a : A} (r : Result A × S) → r.0 ≡ ok a → r ≡ (ok a, r.1)
pair_lem (r, s) e = ap (λ x. (x, s)) e

-- A reply of the handler of the delete route that was not moved away.
handled_lem :
    {S : Type 0} (f : Reply) (r : Result (Unit {0}) × S)
    → r.0 ≡ ok tt
    → handled_moved (continue r (λ _. pure f)) ≡ (ok f, r.1)
handled_lem f (ok _, s) e = refl
handled_lem f (err x, s) e = absurd (ground (arith, e))

module _ {W H F : Type 0} (rt : Runtime W H F) (count : ℕ) (arrange : GroupMap F → GroupMap F)
    (json : Json F) (what : Error → Option Str) where
  reset_state :
      (req : Request) (s : Server W F) (body : Str)
      → text_of req.content_stream ≡ some body
      → (handle_reset rt count arrange json req fresh_reply s).1
        ≡ (BufferManager.reset rt count s).1
  unfolding handle_reset
  reset_state req s body readable =
      rw (body_of_lem req.content_stream body s readable)
        (pure_state _ (BufferManager.reset rt count s))

  reset_effect :
      (req : Request) (s : Server W F) (body : Str)
      → text_of req.content_stream ≡ some body
      → (route rt count arrange json what post_reset req s).1 ≡ (BufferManager.reset rt count s).1
  unfolding route
  reset_effect req s body readable =
      handled_state what (handle_reset rt count arrange json req fresh_reply s)
      ∙ reset_state req s body readable

  -- A client that is connected and asks for the status after a `POST /buffer/reset` whose body could
  -- be read gets one that counts no trajectory and no group, whatever the reset failed on.
  pub post_reset-Zero :
      (order : Batches F → Batches F) (sleep : Action (Server W F) (Unit {0})) (fuel : ℕ)
      (formats : Formats F) (c : TransferQueueClient) (req : Request) (s : Server W F) (body : Str)
      → text_of req.content_stream ≡ some body
      → c.connected ≡ true
      → Sends formats.get_status_request get_status_request
      → Sends formats.buffer_status
          (BufferManager.get_status rt (route rt count arrange json what post_reset req s).1)
      → (st : BufferStatus) × Zero st
        × ((get_status formats (network rt count arrange order sleep fuel formats) (record {
          client = c;
          remote = (route rt count arrange json what post_reset req s).1;
        })).0
            ≡ ok st)
  post_reset-Zero order sleep fuel formats c req s body readable on request reply =
      let after = (route rt count arrange json what post_reset req s).1 in
      (
        BufferManager.get_status rt after,
        subst (λ x. Zero (BufferManager.get_status rt x)) (sym (reset_effect req s body readable))
            (reset-Zero rt count s).1,
        ap (λ r. r.0)
            (get_status_remote rt count arrange order sleep fuel formats c after on request reply),
      )

  -- An instance that the manager has dropped: the shard that its id routes to has no entry for it
  -- and all its other entries, and the other shards are as they were.
  pub record Dropped (id : Str) (s s' : Server W F) : Type 0 where
    pub returned : BufferManager.delete_instance rt count id s ≡ (ok tt, s')
    pub before : BufferShard F
    pub after : BufferShard F
    pub was : nth (shard_for rt count id) s.manager.shards ≡ some before
    pub here : nth (shard_for rt count id) s'.manager.shards ≡ some after
    pub gone : find id after.groups ≡ none
    pub others : (q : Str) → q ≢ id → find q after.groups ≡ find q before.groups
    pub elsewhere :
        (i : ℕ) → i ≢ shard_for rt count id → nth i s'.manager.shards ≡ nth i s.manager.shards

  delete_instance-Dropped :
      (id : Str) (s : Server W F)
      → IsSharded rt count s.manager
      → 0 < count
      → Dropped id s (BufferManager.delete_instance rt count id s).1
  unfolding BufferManager.delete_instance shard_for
  delete_instance-Dropped id s sharded h =
      let sid = shard_for rt count id in
      let r =
        invoke_on-Routed sid (Manage.delete_instance rt id) s
          (subst (λ n. sid < n) (sym sharded.size) (mod-lt _ h)) in
      let core : Core W F = record { shard = r.shard; env = s.env } in
      let d = delete_instance-Deleted rt id core (sharded.routed.owned sid r.shard r.found).0 in
      record {
        returned = pair_lem _ (r.result ∙ d.returned);
        before = r.shard;
        after = (Manage.delete_instance rt id core).1.shard;
        was = r.found;
        here = r.here;
        gone = d.lookup id ∙ if_pos (Str-discrete id id) refl _ _;
        others = λ q differs. d.lookup q ∙ if_neg (Str-discrete q id) differs _ _;
        elsewhere = r.elsewhere;
      }

  -- What `DELETE /buffer/instance` gives for an instance id.
  abbrev pub DeleteAnswered : Str → Server W F → Result Reply × Server W F → Type 0
  DeleteAnswered [] s r = r ≡ (ok (error_reply fresh_reply bad_request missing_instance_id), s)
  DeleteAnswered (c ∷ id) s r =
      (r.0
        ≡ ok (
            json_reply fresh_reply (
              json.delete_response reply_options
                (record { success = true; message = instance_deleted }))))
      × Dropped (c ∷ id) s r.1

  -- On a server with a shard for each core, where every instance is on the shard that its id routes
  -- to, `DELETE /buffer/instance` with no instance id changes nothing and is answered with 400 and the
  -- text that the id is missing. With an id it is answered with the text of a response that says
  -- success, or with 500 if that cannot be printed, the shard that the id routes to has no entry for
  -- it afterwards, and every other entry and every other shard is as it was.
  pub delete_route-DeleteAnswered :
      (id : Str) (stream : Option (Result Str)) (s : Server W F)
      → IsSharded rt count s.manager
      → 0 < count
      → let req : Request = record { content_stream = stream; get_path_param = id } in
        DeleteAnswered id s (route rt count arrange json what Route.delete_instance req s)
  unfolding route handle_delete_instance delete_for
  delete_route-DeleteAnswered [] stream s sharded h = refl
  delete_route-DeleteAnswered (c ∷ id) stream s sharded h =
      let d = delete_instance-Dropped (c ∷ id) s sharded h in
      let done = BufferManager.delete_instance rt count (c ∷ id) s in
      let e =
        handled_lem
          (json_reply fresh_reply (
            json.delete_response reply_options
              (record { success = true; message = instance_deleted })))
          done (ap (λ x. x.0) d.returned) in
      (ap (λ x. x.0) e, subst (Dropped (c ∷ id) s) (sym (ap (λ x. x.1) e)) d)
