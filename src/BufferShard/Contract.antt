-- ===== src/BufferShard/Contract.antt =====
-- What a shard of server/buffer_shard.cc promises, without its files, its filter and its map: a
-- group for each instance, and what each call may do to them. Which writes are refused is
-- in Answers.
pub mod Balance
pub mod Answers
use transfer_queue.Prelude.{
  ℕ, ◌+◌, ◌^◌, ◌≤◌, ◌<◌, ◌≡◌, ◌⊎◌, refl, sym, ap, ◌∙◌, Bool, true, false, List, [], ◌∷◌, ◌++◌,
  Option, none, some, ite, if_pos, if_neg, Str, Str-discrete, length, arith,
}
use mathlib.Core.List.{append-nil, append_assoc}
use transfer_queue.Prelude.Int.{ℤ, pos, negsuc}
use transfer_queue.Proto.{Trajectory, TrajectoryGroup}
use transfer_queue.BufferShard.Read.{reached, count_trajectories}
use transfer_queue.BufferShard.Groups.{new_group}
use transfer_queue.BufferShard.Appends.{group_or_new, extended, with_trajectory}

abbrev pub Groups : Type 0 → Type 0
Groups F = Str → Option (TrajectoryGroup F)

pub data Call (F : Type 0) : Type 0 where
  put : Trajectory F → Call F
  take_ready : ℤ → Call F
  delete : Str → Call F
  check_timeouts : Call F
  reset_all : Call F

pub data Reply (F : Type 0) : Type 0 where
  accepted : Bool → Reply F
  ready : List (TrajectoryGroup F) → Reply F
  done : Reply F

-- At most the limit, if that is a positive `int32_t`.
abbrev pub Within : ℤ → ℕ → Type 0
Within (pos m) k = 0 < m → m < 2 ^ 31 → k ≤ m
Within (negsuc m) k = Unit {0}

module _ {F : Type 0} where
  -- The groups of an instance among some groups.
  unfoldable pub of_instance : Str → List (TrajectoryGroup F) → List (TrajectoryGroup F)
  of_instance q [] = []
  of_instance q (g ∷ gs) =
      ite (Str-discrete q g.instance_id) (g ∷ of_instance q gs) (of_instance q gs)

  -- What a read does to an instance: it takes its group, if that is complete, or leaves it.
  pub data Takes (q : Str) (gs : List (TrajectoryGroup F)) (old new : Option (TrajectoryGroup F))
      : Type 0 where
    left : of_instance q gs ≡ [] → new ≡ old → Takes q gs old new
    taken :
        (g : TrajectoryGroup F)
        → of_instance q gs ≡ g ∷ []
        → old ≡ some g
        → g.is_complete ≡ true
        → new ≡ none
        → Takes q gs old new

  -- What a check of the timeouts does to an instance: its group may become complete.
  pub data Closes (old new : Option (TrajectoryGroup F)) : Type 0 where
    kept : new ≡ old → Closes old new
    closed :
        (g : TrajectoryGroup F)
        → old ≡ some g
        → new ≡ some (record g { is_complete = true })
        → Closes old new

  -- One call: its reply, and the groups before and after it. `size` is the target size of new groups.
  pub data Step (size : ℤ) (view view' : Groups F) : Call F → Reply F → Type 0 where
    appended :
        (t : Trajectory F)
        → ((q : Str) → view' q ≡ with_trajectory size t view q)
        → Step size view view' (put t) (accepted true)
    -- A trajectory for a group that is complete may be lost.
    dropped :
        (t : Trajectory F) (g : TrajectoryGroup F)
        → view t.instance_id ≡ some g
        → g.is_complete ≡ true
        → ((q : Str) → view' q ≡ view q)
        → Step size view view' (put t) (accepted true)
    refused :
        (t : Trajectory F)
        → ((q : Str) → view' q ≡ view q)
        → Step size view view' (put t) (accepted false)
    -- No more than the limit, and complete groups are left only if it is reached.
    read :
        (n : ℤ) (gs : List (TrajectoryGroup F))
        → ((q : Str) → Takes q gs (view q) (view' q))
        → Within n (length gs)
        → (reached n (length gs) ≡ true)
          ⊎ ((q : Str) (g : TrajectoryGroup F) → view' q ≡ some g → g.is_complete ≡ false)
        → Step size view view' (take_ready n) (ready gs)
    deleted :
        (id : Str)
        → ((q : Str) → view' q ≡ ite (Str-discrete q id) none (view q))
        → Step size view view' (delete id) done
    timed_out : ((q : Str) → Closes (view q) (view' q)) → Step size view view' check_timeouts done
    emptied : ((q : Str) → view' q ≡ none) → Step size view view' reset_all done

  -- Calls one after another, with their replies.
  pub data History (size : ℤ) : Groups F → List (Call F × Reply F) → Groups F → Type 0 where
    start : {view : Groups F} → History size view [] view
    next :
        {view : Groups F} {l : List (Call F × Reply F)} {c : Call F} {r : Reply F}
        {mid last : Groups F}
        → Step size view mid c r
        → History size mid l last
        → History size view ((c, r) ∷ l) last

  -- The two totals after a call, from those before it.
  unfoldable pub total_after :
      {size : ℤ} {view view' : Groups F} {c : Call F} {r : Reply F}
      → Step size view view' c r
      → ℕ
      → ℕ
  total_after (appended t h) n = 1 + n
  total_after (emptied h) n = 0
  total_after (dropped t g h h' h'') n = n
  total_after (refused t h) n = n
  total_after (read m gs h h' h'') n = n
  total_after (deleted id h) n = n
  total_after (timed_out h) n = n

  unfoldable pub consumed_after :
      {size : ℤ} {view view' : Groups F} {c : Call F} {r : Reply F}
      → Step size view view' c r
      → ℕ
      → ℕ
  consumed_after (read m gs h h' h'') n = n + count_trajectories gs
  consumed_after (emptied h) n = 0
  consumed_after (appended t h) n = n
  consumed_after (dropped t g h h' h'') n = n
  consumed_after (refused t h) n = n
  consumed_after (deleted id h) n = n
  consumed_after (timed_out h) n = n

  module _ {size : ℤ} {view view' : Groups F} (k : ℕ) where
    pub consumed_after-put :
        {t : Trajectory F} {r : Reply F} (s : Step size view view' (put t) r)
        → consumed_after s k ≡ k
    unfolding consumed_after
    consumed_after-put (appended t h) = refl
    consumed_after-put (dropped t g h h' h'') = refl
    consumed_after-put (refused t h) = refl

    pub after-read :
        {n : ℤ} {gs : List (TrajectoryGroup F)} (s : Step size view view' (take_ready n) (ready gs))
        → (total_after s k ≡ k) × (consumed_after s k ≡ k + count_trajectories gs)
    unfolding total_after consumed_after
    after-read (read n gs h h' h'') = (refl, refl)

    pub after-delete :
        {id : Str} {r : Reply F} (s : Step size view view' (delete id) r)
        → (total_after s k ≡ k) × (consumed_after s k ≡ k)
    unfolding total_after consumed_after
    after-delete (deleted id h) = (refl, refl)

    pub after-timeouts :
        {r : Reply F} (s : Step size view view' check_timeouts r)
        → (total_after s k ≡ k) × (consumed_after s k ≡ k)
    unfolding total_after consumed_after
    after-timeouts (timed_out h) = (refl, refl)

  unfoldable pub total_of :
      {size : ℤ} {view view' : Groups F} {l : List (Call F × Reply F)}
      → History size view l view'
      → ℕ
      → ℕ
  total_of start n = n
  total_of (next s h) n = total_of h (total_after s n)

  unfoldable pub consumed_of :
      {size : ℤ} {view view' : Groups F} {l : List (Call F × Reply F)}
      → History size view l view'
      → ℕ
      → ℕ
  consumed_of start n = n
  consumed_of (next s h) n = consumed_of h (consumed_after s n)
