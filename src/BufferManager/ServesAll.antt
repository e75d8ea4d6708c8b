-- ===== src/BufferManager/ServesAll.antt =====
-- `read_ready_groups` without a limit and `reset` of server/buffer_manager.cc are steps of the
-- contract of BufferShard/Contract on the groups of the whole server.
use native.Mathlib.Nat.{mod-lt}
use transfer_queue.Prelude.{
  ℕ, zero, suc, ◌+◌, ◌<◌, ◌≤◌, ◌≡◌, ◌≢◌, refl, sym, ap, ◌∙◌, false, inl, inr, List, [], ◌∷◌, Option,
  some, none, if_pos, if_neg, Str, ℕ_discrete, length, arith,
}
use mathlib.Core.List.{append-nil}
use transfer_queue.Prelude.Int.{ℤ, pos, negsuc}
use transfer_queue.Action.{ok}
use transfer_queue.Platform.Runtime.{Runtime, View, IsCodec, IsReliable}
use transfer_queue.Proto.{TrajectoryGroup}
use transfer_queue.BufferShard.Takes.{of_instance-append}
use transfer_queue.BufferShard.Contract.{
  Groups, take_ready, ready, reset_all, done, of_instance, Takes, left, taken, Within, Step, read,
  emptied,
}
use transfer_queue.BufferShard.Read
use transfer_queue.BufferShard.Read.{reached}
use transfer_queue.BufferShard.Manage
use transfer_queue.BufferShard.Reads.{read-ReadDone}
use transfer_queue.BufferShard.ResetStep.{no_groups, reset-ResetDone}
use transfer_queue.BufferManager.{
  Server, shard_for, merge_all, truncated, map_shards, read_ready_groups, reset,
}
use transfer_queue.BufferManager.Whole.{merge}
use transfer_queue.BufferManager.Everywhere.{AllDid, before_lem, each-Done}
use transfer_queue.BufferManager.Serves.{Whole, WholeDone, part_mine, part_foreign}

-- A limit that is none.
abbrev pub Unlimited : ℤ → Type 0
Unlimited (pos zero) = Unit {0}
Unlimited (pos (suc n)) = ⊥
Unlimited (negsuc n) = Unit {0}

never_reached : (n : ℤ) (k : ℕ) → Unlimited n → reached n k ≡ false
never_reached (pos zero) k u = refl
never_reached (pos (suc n)) k u = absurd u
never_reached (negsuc n) k u = refl

always-Within : (n : ℤ) (k : ℕ) → Unlimited n → Within n k
always-Within (pos zero) k u = λ p. absurd (omega (arith, p))
always-Within (pos (suc n)) k u = absurd u
always-Within (negsuc n) k u = tt

not_truncated : {A : Type 0} (n : ℤ) (l : List A) → Unlimited n → truncated n l ≡ l
unfolding truncated
not_truncated (pos zero) l u = refl
not_truncated (pos (suc n)) l u = absurd u
not_truncated (negsuc n) l u = refl

module _ {F : Type 0} where
  -- A read without a limit takes every complete group.
  abbrev pub TookAll : List (TrajectoryGroup F) → Groups F → Groups F → Type 0
  TookAll gs view after =
      (q : Str)
      → Takes q gs (view q) (after q)
        × ((g : TrajectoryGroup F) → after q ≡ some g → g.is_complete ≡ false)

  abbrev pub Vanished : Unit {0} → Groups F → Groups F → Type 0
  Vanished u view after = (q : Str) → after q ≡ none

  -- Of an instance without a group, a read takes none.
  none_taken :
      {q : Str} {gs : List (TrajectoryGroup F)} {old new : Option (TrajectoryGroup F)}
      → old ≡ none
      → Takes q gs old new
      → (of_instance q gs ≡ []) × (new ≡ none)
  none_taken h (left none_here same) = (none_here, same ∙ h)
  none_taken h (taken g one was full now) = absurd (ground (arith, h, was))

  Takes-same :
      {q : Str} {gs gs' : List (TrajectoryGroup F)} {old old' new new' : Option (TrajectoryGroup F)}
      → of_instance q gs ≡ of_instance q gs'
      → old ≡ old'
      → new ≡ new'
      → Takes q gs old new
      → Takes q gs' old' new'
  Takes-same e o n (left none_here same) = left (sym e ∙ none_here) (sym n ∙ same ∙ o)
  Takes-same e o n (taken g one was full now) =
      taken g (sym e ∙ one) (sym o ∙ was) full (sym n ∙ now)

  took_all :
      {size : ℤ} {view after : Groups F} (n : ℤ) (gs : List (TrajectoryGroup F))
      → Unlimited n
      → Step size view after (take_ready n) (ready gs)
      → TookAll gs view after
  took_all n gs u (read _ _ takes within rest) q = (
    takes q,
    elim rest [
      | inl full ↦ absurd (ground (arith, full, never_reached n (length gs) u))
      | inr none_left ↦ none_left q
    ],
  )

module _ {W H F : Type 0} (rt : Runtime W H F) (count : ℕ) where
  merge_mine :
      (k : ℕ) (after view : Groups F) (q : Str)
      → shard_for rt count q ≡ k
      → merge rt count k after view q ≡ after q
  merge_mine k after view q p = if_pos (ℕ_discrete (shard_for rt count q) k) p _ _

  merge_other :
      (k : ℕ) (after view : Groups F) (q : Str)
      → shard_for rt count q ≢ k
      → merge rt count k after view q ≡ view q
  merge_other k after view q n = if_neg (ℕ_discrete (shard_for rt count q) k) n _ _

  -- The reads of later shards do nothing to an instance.
  untouched :
      (q : Str) (i : ℕ) (gss : List (List (TrajectoryGroup F))) (view after : Groups F)
      → shard_for rt count q < i
      → AllDid rt count TookAll i gss view after
      → (after q ≡ view q) × (of_instance q (merge_all gss) ≡ [])
  unfolding merge_all of_instance
  untouched q i [] view after h d = (ap (λ w. w q) (sym d), refl)
  untouched q i (gs ∷ gss) view after h (x, did, foreign, more) =
      let differs : shard_for rt count q ≢ i = λ e. absurd (omega (arith, h, e)) in
      let (same, none_here) =
        untouched q (suc i) gss (merge rt count i x view) after (omega (arith, h)) more in
      let (nothing, _) = none_taken (part_foreign rt count i view q differs) (did q).0 in
      (
        same ∙ merge_other i x view q differs,
        of_instance-append q gs (merge_all gss) ∙ rw (nothing, none_here) refl,
      )

  -- The reads of all shards are one read of the server.
  all_taken :
      (q : Str) (i : ℕ) (gss : List (List (TrajectoryGroup F))) (view after : Groups F)
      → i ≤ shard_for rt count q
      → shard_for rt count q < i + length gss
      → AllDid rt count TookAll i gss view after
      → Takes q (merge_all gss) (view q) (after q)
        × ((g : TrajectoryGroup F) → after q ≡ some g → g.is_complete ≡ false)
  unfolding merge_all of_instance
  all_taken q i [] view after low high d = absurd (omega (arith, low, high))
  all_taken q i (gs ∷ gss) view after low high (x, did, foreign, more) =
      elim (ℕ_discrete (shard_for rt count q) i) [
        | yes p ↦
            let (same, none_later) =
              untouched q (suc i) gss (merge rt count i x view) after (omega (arith, p)) more in
            let here : after q ≡ x q = same ∙ merge_mine i x view q p in
            let old = part_mine rt count i view q p in
            (
              Takes-same
                  (sym (of_instance-append q gs (merge_all gss) ∙ rw none_later (append-nil _))) old
                  (sym here) (did q).0,
              λ g e. (did q).1 g (sym here ∙ e),
            )
        | no n ↦
            let (rest, complete) =
              all_taken q (suc i) gss (merge rt count i x view) after (omega (arith, low, n))
                (omega (arith, high)) more in
            let (nothing, _) = none_taken (part_foreign rt count i view q n) (did q).0 in
            (
              Takes-same (sym (of_instance-append q gs (merge_all gss) ∙ rw nothing refl))
                  (merge_other i x view q n) refl rest,
              complete,
            )
      ]

  all_gone :
      (q : Str) (i : ℕ) (us : List (Unit {0})) (view after : Groups F)
      → i ≤ shard_for rt count q
      → shard_for rt count q < i + length us
      → AllDid rt count Vanished i us view after
      → after q ≡ none
  all_gone q i [] view after low high d = absurd (omega (arith, low, high))
  all_gone q i (u ∷ us) view after low high (x, did, foreign, more) =
      elim (ℕ_discrete (shard_for rt count q) i) [
        | yes p ↦
            sym (part_mine rt count i after q p)
            ∙ ap (λ w. w q)
                (sym (
                  before_lem rt count Vanished i (suc i) us (merge rt count i x view) after
                    (omega arith) more))
            ∙ part_mine rt count i (merge rt count i x view) q p
            ∙ merge_mine i x view q p
            ∙ did q
        | no n ↦
            all_gone q (suc i) us (merge rt count i x view) after (omega (arith, low, n))
              (omega (arith, high)) more
      ]

module _ {W H F : Type 0} (rt : Runtime W H F) (v : View W H) (codec : IsCodec rt)
    (reliable : IsReliable rt v) (count : ℕ) where
  -- On a machine where no file operation fails, a read of the server without a limit is one read of
  -- all its groups.
  pub read-WholeDone :
      (n : ℤ) (s : Server W F) (view : Groups F)
      → Unlimited n
      → Whole rt v count s view
      → WholeDone rt v count (take_ready n) ready s view (read_ready_groups rt n s)
  unfolding read_ready_groups map_shards shard_for
  read-WholeDone n s view u w =
      let x =
        each-Done rt count TookAll v (Read.read_ready_groups rt n) 0 s.manager.shards s.env view
          (λ k core old sound foreign.
            let r =
              read-ReadDone rt v codec reliable s.manager.config.group_size n core old sound in
            let took = took_all n r.groups u r.step in
            (
              r.groups,
              r.after,
              r.returned,
              record {
                storage = r.storage;
                framed = r.framed;
                sound = r.sound;
                foreign = λ q d. (none_taken (foreign q d) (took q).0).1;
              },
              took,
            ))
          w.sound w.apart in
      let all : (q : Str)
          → Takes q (merge_all x.values) (view q) (x.after q)
            × ((g : TrajectoryGroup F) → x.after q ≡ some g → g.is_complete ≡ false) =
        λ q.
          all_taken rt count q 0 x.values view x.after (omega arith)
            (omega (arith, mod-lt (rt.hash q) w.positive, x.size, w.size)) x.did in
      rw (x.returned) (record {
        value = merge_all x.values;
        after = x.after;
        returned = ap ok (not_truncated n (merge_all x.values) u);
        step = read n _ (λ q. (all q).0) (always-Within n _ u) (inr (λ q. (all q).1));
        whole = record {
          positive = w.positive;
          size = x.same_size ∙ w.size;
          sound = x.sound;
          apart = x.apart;
        };
        config = refl;
      })

  -- On a machine where no file operation fails, a reset of the server removes all its groups.
  pub reset-WholeDone :
      (s : Server W F) (view : Groups F)
      → Whole rt v count s view
      → WholeDone rt v count reset_all (λ _. done) s view (reset rt count s)
  unfolding reset map_shards shard_for
  reset-WholeDone s view w =
      let x =
        each-Done rt count Vanished v (Manage.reset rt) 0 s.manager.shards s.env view
          (λ k core old sound foreign.
            let r = reset-ResetDone rt v codec reliable core old sound in
            (
              tt,
              no_groups rt v codec reliable,
              r.returned,
              record {
                storage = r.storage;
                framed = r.framed;
                sound = r.sound;
                foreign = λ q d. refl;
              },
              λ q. refl,
            ))
          w.sound w.apart in
      rw (x.returned) (record {
        value = tt;
        after = x.after;
        returned = refl;
        step = emptied (λ q.
            all_gone rt count q 0 x.values view x.after (omega arith)
              (omega (arith, mod-lt (rt.hash q) w.positive, x.size, w.size)) x.did);
        whole = record {
          positive = w.positive;
          size = x.same_size ∙ w.size;
          sound = x.sound;
          apart = x.apart;
        };
        config = refl;
      })
