-- ===== src/BufferShard/Contract/Balance.antt =====
-- Nothing is lost in a history of the contract of server/buffer_shard.cc but what it drops.
use transfer_queue.Prelude.{
  ◌≡◌, refl, sym, ap, ◌∙◌, List, [], ◌∷◌, ◌++◌, Option, none, some, ite, if_pos, if_neg, Str,
  Str-discrete,
}
use mathlib.Core.List.{append-nil, append_assoc}
use transfer_queue.Prelude.Int.{ℤ}
use transfer_queue.Proto.{Trajectory, TrajectoryGroup}
use transfer_queue.BufferShard.Groups.{new_group}
use transfer_queue.BufferShard.Appends.{group_or_new, extended, with_trajectory}
use transfer_queue.BufferShard.Contract.{
  Groups, Call, Reply, of_instance, Takes, left, taken, Closes, kept, closed, Step, appended,
  dropped, refused, read, deleted, timed_out, emptied, History, start, next,
}

module _ {F : Type 0} where
  abbrev pub trajectories_of : Option (TrajectoryGroup F) → List (Trajectory F)
  trajectories_of none = []
  trajectories_of (some g) = g.trajectories

  unfoldable pub all_trajectories : List (TrajectoryGroup F) → List (Trajectory F)
  all_trajectories [] = []
  all_trajectories (g ∷ gs) = g.trajectories ++ all_trajectories gs

  Takes-balance :
      (q : Str) {gs : List (TrajectoryGroup F)} {old new : Option (TrajectoryGroup F)}
      → Takes q gs old new
      → trajectories_of old ≡ all_trajectories (of_instance q gs) ++ trajectories_of new
  unfolding all_trajectories
  Takes-balance q (left none_taken same) = rw (none_taken, same) refl
  Takes-balance q (taken g one was full now) =
      rw (one, was, now) (sym (append-nil _ ∙ append-nil g.trajectories))

  Closes-balance :
      {old new : Option (TrajectoryGroup F)}
      → Closes old new
      → trajectories_of old ≡ trajectories_of new
  Closes-balance (kept same) = rw (same) refl
  Closes-balance (closed g was now) = rw (was, now) refl

  appended_lem :
      (size : ℤ) (t : Trajectory F) (o : Option (TrajectoryGroup F))
      → trajectories_of o ++ t ∷ []
        ≡ trajectories_of (some (extended t (group_or_new t.instance_id size o)))
  unfolding new_group
  appended_lem size t none = refl
  appended_lem size t (some g) = refl

  module _ {size : ℤ} (q : Str) where
    -- What a call puts into the group of an instance, and what it takes out of it.
    unfoldable pub put_by :
        {view view' : Groups F} {c : Call F} {r : Reply F}
        → Step size view view' c r
        → List (Trajectory F)
    put_by (appended t h) = ite (Str-discrete q t.instance_id) (t ∷ []) []
    put_by (dropped t g h h' h'') = []
    put_by (refused t h) = []
    put_by (read n gs h h' h'') = []
    put_by (deleted id h) = []
    put_by (timed_out h) = []
    put_by (emptied h) = []

    unfoldable pub taken_by :
        {view view' : Groups F} {c : Call F} {r : Reply F}
        → Step size view view' c r
        → List (Trajectory F)
    taken_by (appended t h) = []
    taken_by (dropped t g h h' h'') = []
    taken_by (refused t h) = []
    taken_by (read n gs h h' h'') = all_trajectories (of_instance q gs)
    taken_by {view} (deleted id h) = ite (Str-discrete q id) (trajectories_of (view q)) []
    taken_by (timed_out h) = []
    taken_by {view} (emptied h) = trajectories_of (view q)

    unfoldable pub all_put :
        {view view' : Groups F} {l : List (Call F × Reply F)}
        → History size view l view'
        → List (Trajectory F)
    all_put start = []
    all_put (next s h) = put_by s ++ all_put h

    unfoldable pub all_taken :
        {view view' : Groups F} {l : List (Call F × Reply F)}
        → History size view l view'
        → List (Trajectory F)
    all_taken start = []
    all_taken (next s h) = taken_by s ++ all_taken h

    step_balance :
        {view view' : Groups F} {c : Call F} {r : Reply F} (s : Step size view view' c r)
        → trajectories_of (view q) ++ put_by s ≡ taken_by s ++ trajectories_of (view' q)
    unfolding put_by taken_by with_trajectory
    step_balance {view} (appended t h) = elim (Str-discrete q t.instance_id) [
      | yes p ↦
          rw
            (
              h q,
              if_pos (Str-discrete q t.instance_id) p,
              if_pos (Str-discrete q t.instance_id) p,
              p,
            )
            (appended_lem size t (view t.instance_id))
      | no p ↦
          rw (h q, if_neg (Str-discrete q t.instance_id) p, if_neg (Str-discrete q t.instance_id) p)
            (append-nil _)
    ]
    step_balance (dropped t g h h' h'') = rw (h'' q) (append-nil _)
    step_balance (refused t h) = rw (h q) (append-nil _)
    step_balance {view} (read n gs h h' h'') =
        append-nil (trajectories_of (view q)) ∙ Takes-balance q (h q)
    step_balance (deleted id h) = elim (Str-discrete q id) [
      | yes p ↦ rw (h q, if_pos (Str-discrete q id) p, if_pos (Str-discrete q id) p) refl
      | no p ↦ rw (h q, if_neg (Str-discrete q id) p, if_neg (Str-discrete q id) p) (append-nil _)
    ]
    step_balance {view} (timed_out h) = append-nil (trajectories_of (view q)) ∙ Closes-balance (h q)
    step_balance {view} (emptied h) = rw (h q) refl

    -- What was put into the group of an instance has been taken out, in the same order, or is still there.
    pub history_balance :
        {view view' : Groups F} {l : List (Call F × Reply F)} (h : History size view l view')
        → trajectories_of (view q) ++ all_put h ≡ all_taken h ++ trajectories_of (view' q)
    unfolding all_put all_taken
    history_balance {view} start = append-nil _
    history_balance {view} (next {mid} s h) =
        sym (append_assoc (trajectories_of (view q)) (put_by s) (all_put h))
        ∙ ap (λ x. x ++ all_put h) (step_balance s)
        ∙ append_assoc (taken_by s) (trajectories_of (mid q)) (all_put h)
        ∙ ap (◌++◌ (taken_by s)) (history_balance h)
        ∙ sym (append_assoc (taken_by s) (all_taken h) _)
