-- ===== src/HttpHandler/Replies.antt =====
-- What the replies of server/http_handler.cc tell of the manager.
use transfer_queue.Prelude.{
  some_injective, ℕ, ◌≡◌, ◌≢◌, refl, sym, ap, ◌∙◌, true, List, [], ◌∷◌, ◌++◌, Option, none, some,
  Str, length, length-append, inl, inr, ◌⊎◌, arith,
}
use transfer_queue.Prelude.Int.{pos}
use transfer_queue.Action.{Result, ok, err, Error, runtime_error, pure, continue}
use transfer_queue.Platform.Runtime.{Runtime}
use transfer_queue.Proto.{Trajectory, TrajectoryGroup, WriteRequest}
use transfer_queue.BufferShard.Groups.{GroupMap}
use transfer_queue.BufferShard.Read.{count_trajectories}
use transfer_queue.BufferShard.Contract.Balance.{all_trajectories}
use transfer_queue.BufferManager
use transfer_queue.BufferManager.{Server}
use transfer_queue.HttpHandler.{
  Converted, converted, refused, Json, Request, Reply, ok_status, bad_request,
  internal_server_error, post_write, post_get_rollout_data, post_config, flatten, handle_config,
  fresh_reply, write_body, json_reply, error_reply, exception_reply, handled, body_of,
  reply_options, trajectory_of, write_for, rollout_data, write_response, handle_write,
  handle_get_rollout_data, route,
}
use transfer_queue.HttpHandler.Texts.{json_type, plain_type, ok_text, invalid_json}

-- The body of a request that can be read.
abbrev pub text_of : Option (Result Str) → Option Str
text_of none = some []
text_of (some (ok body)) = some body
text_of (some (err e)) = none

pub body_of_lem :
    {S : Type 0} (stream : Option (Result Str)) (body : Str) (s : S)
    → text_of stream ≡ some body
    → body_of stream s ≡ (ok body, s)
body_of_lem none body s e = ap (λ b. (ok b, s)) (some_injective e)
body_of_lem (some (ok b)) body s e = ap (λ x. (ok x, s)) (some_injective e)
body_of_lem (some (err x)) body s e = absurd (ground (arith, e))

pub Converted-cases :
    {A : Type 0} (c : Converted A)
    → ((a : A) × (c ≡ converted a)) ⊎ ((status : Str) × (c ≡ refused status))
Converted-cases (converted a) = inl (a, refl)
Converted-cases (refused status) = inr (status, refl)

-- A reply with the status 200 that carries the value of a result.
pub record Answered {A S : Type 0} (r : Result A × S) (f : A → Converted Str) (rep : Reply) (s : S)
    : Type 0 where
  pub value : A
  pub text : Str
  pub returned : r.0 ≡ ok value
  pub printed : f value ≡ converted text
  pub answer : rep ≡ record { status = ok_status; content_type = json_type; body = text }
  pub effect : s ≡ r.1

abbrev answer_to : {A S : Type 0} → (A → Converted Str) → Result A × S → Result Reply × S
answer_to f r = continue r (λ a. pure (json_reply fresh_reply (f a)))

error_not_ok : (what : Option Str) (rep : Reply) → (exception_reply rep what).status ≢ ok_status
unfolding error_reply write_body
error_not_ok (some message) rep e = cc
error_not_ok none rep e = cc

reply_injective : (a b : Reply) → ok a ≡ ok b → a ≡ b
reply_injective a b e = cc

handled_error :
    {S : Type 0} (what : Error → Option Str) (e : Error) (s : S) (rep : Reply)
    → (handled what (err e, s)).0 ≡ ok rep
    → rep.status ≢ ok_status
handled_error what e s rep h good =
    error_not_ok (what e) fresh_reply (ap (λ r. r.status) (reply_injective _ _ h) ∙ good)

internal_not_ok : internal_server_error ≢ ok_status
internal_not_ok e = cc

value_answer :
    {A S : Type 0} (f : A → Converted Str) (a : A) (s : S) (rep : Reply)
    → json_reply fresh_reply (f a) ≡ rep
    → rep.status ≡ ok_status
    → Answered (ok a, s) f rep s
unfolding json_reply write_body
value_answer f a s rep h good = elim (Converted-cases (f a)) [
  | inl (text, e) ↦ record {
    value = a;
    text = text;
    returned = refl;
    printed = e;
    answer = sym h ∙ ap (json_reply fresh_reply) e;
    effect = refl;
  }
  | inr (status, e) ↦ absurd (
      internal_not_ok
        (sym (ap (λ x. (json_reply fresh_reply x).status) e) ∙ ap (λ x. x.status) h ∙ good))
]

answered_lem :
    {A S : Type 0} (what : Error → Option Str) (f : A → Converted Str) (r : Result A × S)
    (rep : Reply)
    → (handled what (answer_to f r)).0 ≡ ok rep
    → rep.status ≡ ok_status
    → Answered r f rep (handled what (answer_to f r)).1
answered_lem what f (ok a, s) rep h good = value_answer f a s rep (reply_injective _ _ h) good
answered_lem what f (err e, s) rep h good = absurd (handled_error what e s rep h good)

-- A trajectory with the fields of a request.
pub record Carries {F : Type 0} (r : WriteRequest F) (t : Trajectory F) : Type 0 where
  pub uid : t.uid ≡ r.uid
  pub instance_id : t.instance_id ≡ r.instance_id
  pub messages : t.messages ≡ r.messages
  pub reward : t.reward ≡ r.reward
  pub extra_info : t.extra_info ≡ r.extra_info

module _ {W H F : Type 0} (rt : Runtime W H F) (count : ℕ) (arrange : GroupMap F → GroupMap F)
    (json : Json F) (what : Error → Option Str) where
  -- The write that a request asks for, answered.
  pub record Written (stream : Option (Result Str)) (s : Server W F) (rep : Reply) (s' : Server W F)
      : Type 0 where
    pub body : Str
    pub write_req : WriteRequest F
    pub readable : text_of stream ≡ some body
    pub valid : json.to_write_request body ≡ converted write_req
    pub trajectory : Trajectory F
    pub carried : Carries write_req trajectory
    pub outcome :
        Answered
          (BufferManager.write rt count arrange trajectory s)
          (λ success. json.write_response reply_options (write_response success))
          rep
          s'
    pub said : (write_response outcome.value).success ≡ outcome.value

  post_json :
      (stream : Option (Result Str)) (body : Str) (c : Converted (WriteRequest F)) (s : Server W F)
      (rep : Reply)
      → text_of stream ≡ some body
      → json.to_write_request body ≡ c
      → (handled what (write_for rt count arrange json fresh_reply c s)).0 ≡ ok rep
      → rep.status ≡ ok_status
      → Written stream s rep (handled what (write_for rt count arrange json fresh_reply c s)).1
  post_json stream body (converted w) s rep readable valid h good = record {
    body = body;
    write_req = w;
    readable = readable;
    valid = valid;
    trajectory = trajectory_of w;
    carried = record {
      uid = refl;
      instance_id = refl;
      messages = refl;
      reward = refl;
      extra_info = refl;
    };
    said = refl;
    outcome =
        answered_lem what _ (BufferManager.write rt count arrange (trajectory_of w) s) rep h good;
  }
  post_json stream body (refused status) s rep readable valid h good =
      absurd (handled_error what (runtime_error (invalid_json ++ status)) s rep h good)

  post_stream :
      (stream : Option (Result Str)) (id : Str) (s : Server W F) (rep : Reply)
      → let req : Request = record { content_stream = stream; get_path_param = id } in
        (handled what (handle_write rt count arrange json req fresh_reply s)).0 ≡ ok rep
        → rep.status ≡ ok_status
        → Written stream s rep
            (handled what (handle_write rt count arrange json req fresh_reply s)).1
  unfolding handle_write
  post_stream none id s rep h good = post_json none [] _ s rep refl refl h good
  post_stream (some (ok body)) id s rep h good =
      post_json (some (ok body)) body _ s rep refl refl h good
  post_stream (some (err e)) id s rep h good = absurd (handled_error what e s rep h good)

  -- A `POST /buffer/write` that is answered with 200 had a valid body, the manager wrote a
  -- trajectory with all its fields, and the reply says whether it was new.
  pub post_write-Written :
      (req : Request) (s : Server W F) (rep : Reply)
      → (route rt count arrange json what post_write req s).0 ≡ ok rep
      → rep.status ≡ ok_status
      → Written req.content_stream s rep (route rt count arrange json what post_write req s).1
  unfolding route
  post_write-Written req s rep h good =
      post_stream req.content_stream req.get_path_param s rep h good

  -- A `POST /buffer/write` or a `POST /config` whose body is not JSON of the request changes nothing
  -- and is answered with 400 and the text of the exception.
  pub invalid_json_rejected :
      (req : Request) (s : Server W F) (body status message : Str)
      → text_of req.content_stream ≡ some body
      → what (runtime_error (invalid_json ++ status)) ≡ some message
      → let rejected : Reply = record {
        status = bad_request;
        content_type = plain_type;
        body = message;
      } in
        (json.to_write_request body ≡ refused status
          → route rt count arrange json what post_write req s ≡ (ok rejected, s))
        × (json.to_config_request body ≡ refused status
            → route rt count arrange json what post_config req s ≡ (ok rejected, s))
  unfolding route handle_write handle_config error_reply write_body
  invalid_json_rejected req s body status message readable text = (
    λ e. rw (body_of_lem req.content_stream body s readable, e, text) refl,
    λ e. rw (body_of_lem req.content_stream body s readable, e, text) refl,
  )

  -- The trajectories of a response: those of the groups, one group after the other.
  flatten_lem : (gs : List (TrajectoryGroup F)) → flatten gs ≡ all_trajectories gs
  unfolding flatten all_trajectories
  flatten_lem [] = refl
  flatten_lem (g ∷ gs) = ap (λ l. g.trajectories ++ l) (flatten_lem gs)

  length-flatten : (gs : List (TrajectoryGroup F)) → length (flatten gs) ≡ count_trajectories gs
  unfolding flatten count_trajectories
  length-flatten [] = refl
  length-flatten (g ∷ gs) =
      omega (arith, length-append g.trajectories (flatten gs), length-flatten gs)

  abbrev pub RolledOut : Server W F → Reply → Server W F → Type 0
  RolledOut s rep s' =
      Answered (BufferManager.read_ready_groups rt (pos 100) s)
        (λ groups. json.rollout_data reply_options (rollout_data ok_text groups)) rep s'

  rollout_stream :
      (stream : Option (Result Str)) (id : Str) (s : Server W F) (rep : Reply)
      → let req : Request = record { content_stream = stream; get_path_param = id } in
        (handled what (handle_get_rollout_data rt count arrange json req fresh_reply s)).0 ≡ ok rep
        → rep.status ≡ ok_status
        → RolledOut s rep
            (handled what (handle_get_rollout_data rt count arrange json req fresh_reply s)).1
  unfolding handle_get_rollout_data
  rollout_stream none id s rep h good =
      answered_lem what _ (BufferManager.read_ready_groups rt (pos 100) s) rep h good
  rollout_stream (some (ok body)) id s rep h good =
      answered_lem what _ (BufferManager.read_ready_groups rt (pos 100) s) rep h good
  rollout_stream (some (err e)) id s rep h good = absurd (handled_error what e s rep h good)

  -- A `POST /get_rollout_data` that is answered with 200 has the effect of a read of the manager with
  -- the limit 100. Its body is the text of a response that says success, whether groups were ready or
  -- not, and that carries exactly the trajectories of the groups which the read returned, unchanged,
  -- group by group in their order, as many as these groups count.
  pub post_get_rollout_data-RolledOut :
      (req : Request) (s : Server W F) (rep : Reply)
      → (route rt count arrange json what post_get_rollout_data req s).0 ≡ ok rep
      → rep.status ≡ ok_status
      → (r : RolledOut s rep (route rt count arrange json what post_get_rollout_data req s).1)
        × ((rollout_data ok_text r.value).success ≡ true)
        × ((rollout_data ok_text r.value).trajectories ≡ all_trajectories r.value)
        × (length (rollout_data ok_text r.value).trajectories ≡ count_trajectories r.value)
  unfolding route
  post_get_rollout_data-RolledOut req s rep h good =
      let r = rollout_stream req.content_stream req.get_path_param s rep h good in
      (r, refl, flatten_lem r.value, length-flatten r.value)
