-- ===== src/RpcHandler/Subscribe.antt =====
-- What `handle_subscribe` of server/rpc_handler.cc sends.
use transfer_queue.Prelude.{
  ℕ, zero, suc, ◌≡◌, refl, sym, ap, ◌∙◌, List, [], ◌∷◌, ◌++◌, some, map, Str, arith,
}
use mathlib.Core.List.{append-nil, append_assoc, map-append}
use transfer_queue.Prelude.Int.{ℤ, pos}
use transfer_queue.Action.{Action, Result, ok, err, continue}
use transfer_queue.Platform.Message.{Formats}
use transfer_queue.Platform.Runtime.{Runtime}
use transfer_queue.Proto.{TrajectoryGroup, SubscribeRequest}
use transfer_queue.BufferShard.Groups.{GroupMap}
use transfer_queue.BufferManager
use transfer_queue.BufferManager.{Server, Batches}
use transfer_queue.RpcHandler.{
  Stream, prefetch_of, handle_subscribe, serialize_proto, taken, push_groups, subscribe_round,
  subscribe_rounds,
}

-- What was sent, from some groups on: the first of them, in order, and all of them if nothing failed.
pub record Pushed {W F : Type 0} (print : TrajectoryGroup F → Str) (before : List Str)
    (all : List (TrajectoryGroup F)) (r : Result (Unit {0}) × Stream W F) : Type 0 where
  pub done : List (TrajectoryGroup F)
  pub rest : List (TrajectoryGroup F)
  pub split : all ≡ done ++ rest
  pub sent : r.1.sent ≡ before ++ map print done
  pub complete : r.0 ≡ ok tt → rest ≡ []

module _ {W H F : Type 0} (rt : Runtime W H F) (count : ℕ) (arrange : GroupMap F → GroupMap F)
    (order : Batches F → Batches F) (sleep : Action (Server W F) (Unit {0})) (fuel : ℕ)
    (formats : Formats F) where
  abbrev print : TrajectoryGroup F → Str
  print = serialize_proto formats.trajectory_group

  abbrev read : ℤ → Action (Server W F) (List (TrajectoryGroup F))
  read prefetch = BufferManager.read_ready_groups_blocking rt sleep fuel prefetch (pos 1000)

  -- The groups of successive reads, up to one that fails.
  abbrev continued :
      Result (List (TrajectoryGroup F)) × Server W F
      → (Server W F → List (TrajectoryGroup F))
      → List (TrajectoryGroup F)
  continued (ok gs, s) more = gs ++ more s
  continued (err e, s) more = []

  unfoldable pub read_rounds : ℕ → ℤ → Server W F → List (TrajectoryGroup F)
  read_rounds zero prefetch s = []
  read_rounds (suc k) prefetch s = continued (read prefetch s) (read_rounds k prefetch)

  module _ (accept : List Str → Str → Result (Unit {0})) where
    abbrev push : List (TrajectoryGroup F) → Action (Stream W F) (Unit {0})
    push = push_groups rt count arrange order sleep fuel formats accept

    -- A push leaves the server as it is.
    record PushedAll (gs : List (TrajectoryGroup F)) (st : Stream W F)
        (r : Result (Unit {0}) × Stream W F) : Type 0 where
      pushed : Pushed print st.sent gs r
      server : r.1.server ≡ st.server

    push_next :
        (g : TrajectoryGroup F) (gs : List (TrajectoryGroup F))
        → ((st : Stream W F) → PushedAll gs st (push gs st))
        → (a : Result (Unit {0})) (st : Stream W F)
        → PushedAll (g ∷ gs) st (
            continue
              (taken rt count arrange order sleep fuel formats accept a (print g) st)
              (λ _. push gs))
    push_next g gs later (ok _) st =
        let next = later (record st { sent = st.sent ++ print g ∷ [] }) in
        record {
          pushed = record {
            done = g ∷ next.pushed.done;
            rest = next.pushed.rest;
            split = ap (◌∷◌ g) next.pushed.split;
            sent =
                next.pushed.sent ∙ append_assoc st.sent (print g ∷ []) (map print next.pushed.done);
            complete = next.pushed.complete;
          };
          server = next.server;
        }
    push_next g gs later (err e) st = record {
      pushed = record {
        done = [];
        rest = g ∷ gs;
        split = refl;
        sent = sym (append-nil st.sent);
        complete = λ h. absurd (ground (arith, h));
      };
      server = refl;
    }

    push-PushedAll :
        (gs : List (TrajectoryGroup F)) (st : Stream W F) → PushedAll gs st (push gs st)
    unfolding push_groups
    push-PushedAll [] st = record {
      pushed = record {
        done = [];
        rest = [];
        split = refl;
        sent = sym (append-nil st.sent);
        complete = λ h. refl;
      };
      server = refl;
    }
    push-PushedAll (g ∷ gs) st = push_next g gs (push-PushedAll gs) (accept st.sent (print g)) st

    abbrev rounds : ℕ → ℤ → Action (Stream W F) (Unit {0})
    rounds = subscribe_rounds rt count arrange order sleep fuel formats accept

    -- The rounds after a push of the groups of one.
    round_next :
        (gs : List (TrajectoryGroup F)) (all : Server W F → List (TrajectoryGroup F))
        (more : Action (Stream W F) (Unit {0}))
        → ((st : Stream W F) → Pushed print st.sent (all st.server) (more st))
        → (st : Stream W F) (r : Result (Unit {0}) × Stream W F) → PushedAll gs st r
        → Pushed print st.sent (gs ++ all st.server) (continue r (λ _. more))
    round_next gs all more later st (ok u, st') p =
        let next = later st' in
        let whole : gs ≡ p.pushed.done =
          p.pushed.split
          ∙ ap (◌++◌ p.pushed.done) (p.pushed.complete refl)
          ∙ append-nil p.pushed.done in
        record {
          done = gs ++ next.done;
          rest = next.rest;
          split =
              ap (λ s. gs ++ all s) (sym p.server)
              ∙ ap (◌++◌ gs) next.split
              ∙ sym (append_assoc gs next.done next.rest);
          sent =
              next.sent
              ∙ ap (λ l. l ++ map print next.done) p.pushed.sent
              ∙ append_assoc st.sent (map print p.pushed.done) (map print next.done)
              ∙ ap (◌++◌ st.sent) (
                  ap (λ l. map print l ++ map print next.done) (sym whole)
                  ∙ sym (map-append print gs next.done));
          complete = next.complete;
        }
    round_next gs all more later st (err e, st') p = record {
      done = p.pushed.done;
      rest = p.pushed.rest ++ all st.server;
      split =
          ap (λ l. l ++ all st.server) p.pushed.split
          ∙ append_assoc p.pushed.done p.pushed.rest (all st.server);
      sent = p.pushed.sent;
      complete = λ h. absurd (ground (arith, h));
    }

    round_from :
        (all : Server W F → List (TrajectoryGroup F)) (more : Action (Stream W F) (Unit {0}))
        → ((st : Stream W F) → Pushed print st.sent (all st.server) (more st))
        → (st : Stream W F) (r : Result (List (TrajectoryGroup F)) × Server W F)
        → Pushed print st.sent
            (continued r all)
            (continue (continue (r.0, record st { server = r.1 }) push) (λ _. more))
    round_from all more later st (ok gs, s') =
        let read : Stream W F = record st { server = s' } in
        round_next gs all more later read (push gs read) (push-PushedAll gs read)
    round_from all more later st (err e, s') = record {
      done = [];
      rest = [];
      split = refl;
      sent = sym (append-nil st.sent);
      complete = λ h. refl;
    }

    rounds-Pushed :
        (k : ℕ) (prefetch : ℤ) (st : Stream W F)
        → Pushed print st.sent (read_rounds k prefetch st.server) (rounds k prefetch st)
    unfolding subscribe_rounds subscribe_round read_rounds
    rounds-Pushed zero prefetch st = record {
      done = [];
      rest = [];
      split = refl;
      sent = sym (append-nil st.sent);
      complete = λ h. refl;
    }
    rounds-Pushed (suc k) prefetch st =
        round_from (read_rounds k prefetch) (rounds k prefetch) (rounds-Pushed k prefetch) st
          (read prefetch st.server)

    -- Whatever the sink refuses and the reads fail on, a subscriber gets the groups that successive
    -- reads of the manager take out, each once and in their order, up to some point; and if no
    -- exception ended the subscription, it has got all of them.
    pub handle_subscribe-Pushed :
        (k : ℕ) (request_data : Str) (req : SubscribeRequest) (st : Stream W F)
        → formats.subscribe_request.parse request_data ≡ some req
        → Pushed print st.sent
            (read_rounds k
              (prefetch_of rt count arrange order sleep fuel formats req.prefetch_groups)
              st.server)
            (handle_subscribe rt count arrange order sleep fuel formats accept k request_data st)
    unfolding handle_subscribe
    handle_subscribe-Pushed k request_data req st e = rw (e) (rounds-Pushed k _ st)
