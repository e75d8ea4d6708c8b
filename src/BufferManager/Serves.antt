-- ===== src/BufferManager/Serves.antt =====
-- The calls of server/buffer_manager.cc that go to one shard are steps of the contract of
-- BufferShard/Contract on the groups of the whole server.
use native.Mathlib.Nat.{mod-lt}
use transfer_queue.Prelude.{
  ℕ, ◌<◌, ◌≡◌, ◌≢◌, refl, sym, ap, subst, ◌∙◌, some, none, if_pos, if_neg, Str, Str-discrete,
  ℕ_discrete, length, arith,
}
use transfer_queue.Prelude.Int.{ℤ}
use transfer_queue.Action.{Action, Result, ok}
use transfer_queue.Platform.Runtime.{Runtime, View, IsCodec, IsReliable}
use transfer_queue.Proto.{Trajectory}
use transfer_queue.BufferShard.{BufferShard, Core}
use transfer_queue.BufferShard.Groups.{GroupMap}
use transfer_queue.BufferShard.Entries.{IsReordering}
use transfer_queue.BufferShard.Appends.{with_trajectory}
use transfer_queue.BufferShard.Contract.{
  Groups, Call, put, delete, Reply, accepted, done, Step, appended, dropped, refused, deleted,
}
use transfer_queue.BufferShard.Write
use transfer_queue.BufferShard.Manage
use transfer_queue.BufferShard.Sound.{Sound}
use transfer_queue.BufferShard.Runs.{HasRoom}
use transfer_queue.BufferShard.WriteStep.{write-WriteDone}
use transfer_queue.BufferShard.DeleteStep.{without, delete-DeleteDone}
use transfer_queue.BufferManager.{Server, invoke_on, shard_for, write, delete_instance}
use transfer_queue.BufferManager.Routing.{nth, invoke_on-Routed}
use transfer_queue.BufferManager.Whole.{
  part, merge, AllSound, AllApart, AllSound-nth, Changed, at-Served,
}

module _ {W H F : Type 0} (rt : Runtime W H F) (count : ℕ) where
  pub part_mine :
      (k : ℕ) (view : Groups F) (q : Str)
      → shard_for rt count q ≡ k
      → part rt count k view q ≡ view q
  part_mine k view q p = if_pos (ℕ_discrete (shard_for rt count q) k) p _ _

  pub part_foreign :
      (k : ℕ) (view : Groups F) (q : Str) → shard_for rt count q ≢ k → part rt count k view q ≡ none
  part_foreign k view q n = if_neg (ℕ_discrete (shard_for rt count q) k) n _ _

  -- If a shard keeps its groups, the server does.
  merge_same :
      (k : ℕ) (view after : Groups F)
      → ((q : Str) → after q ≡ part rt count k view q)
      → (q : Str) → merge rt count k after view q ≡ view q
  merge_same k view after h q = elim (ℕ_discrete (shard_for rt count q) k) [
    | yes p ↦ if_pos (ℕ_discrete (shard_for rt count q) k) p _ _ ∙ h q ∙ part_mine k view q p
    | no n ↦ if_neg (ℕ_discrete (shard_for rt count q) k) n _ _
  ]

  merge_appended :
      (size : ℤ) (t : Trajectory F) (k : ℕ) (view after : Groups F)
      → shard_for rt count t.instance_id ≡ k
      → ((q : Str) → after q ≡ with_trajectory size t (part rt count k view) q)
      → (q : Str) → merge rt count k after view q ≡ with_trajectory size t view q
  unfolding with_trajectory
  merge_appended size t k view after mine h q = elim (ℕ_discrete (shard_for rt count q) k) [
    | yes p ↦
        rw
          (
            if_pos (ℕ_discrete (shard_for rt count q) k) p,
            h q,
            part_mine k view t.instance_id mine,
            part_mine k view q p,
          )
          refl
    | no n ↦
        rw
          (
            if_neg (ℕ_discrete (shard_for rt count q) k) n,
            if_neg (Str-discrete q t.instance_id) (λ e. n (ap (shard_for rt count) e ∙ mine)),
          )
          refl
  ]

  put_whole :
      {size : ℤ} {t : Trajectory F} {r : Reply F} (k : ℕ) (view after : Groups F)
      → shard_for rt count t.instance_id ≡ k
      → Step size (part rt count k view) after (put t) r
      → Step size view (merge rt count k after view) (put t) r
  put_whole {size} k view after mine (appended t h) =
      appended t (merge_appended size t k view after mine h)
  put_whole k view after mine (dropped t g h h' h'') =
      dropped t g (sym (part_mine k view t.instance_id mine) ∙ h) h' (merge_same k view after h'')
  put_whole k view after mine (refused t h) = refused t (merge_same k view after h)

  put_foreign :
      {size : ℤ} {t : Trajectory F} {r : Reply F} (k : ℕ) (view after : Groups F)
      → shard_for rt count t.instance_id ≡ k
      → Step size (part rt count k view) after (put t) r
      → (q : Str) → shard_for rt count q ≢ k
      → after q ≡ none
  unfolding with_trajectory
  put_foreign k view after mine (appended t h) q n =
      h q
      ∙ if_neg (Str-discrete q t.instance_id) (λ e. n (ap (shard_for rt count) e ∙ mine)) _ _
      ∙ part_foreign k view q n
  put_foreign k view after mine (dropped t g h h' h'') q n = h'' q ∙ part_foreign k view q n
  put_foreign k view after mine (refused t h) q n = h q ∙ part_foreign k view q n

module _ {W H F : Type 0} (rt : Runtime W H F) (v : View W H) (count : ℕ) where
  -- The server keeps these groups, each at the shard that its instance routes to.
  pub record Whole (s : Server W F) (view : Groups F) : Type 0 where
    pub positive : 0 < count
    pub size : length s.manager.shards ≡ count
    pub sound : AllSound rt v count s.env 0 s.manager.shards view
    pub apart : AllApart rt v s.manager.shards

  -- A call of the manager that is a step of the contract, with its reply.
  pub record WholeDone {A : Type 0} (c : Call F) (reply : A → Reply F) (s : Server W F)
      (view : Groups F) (r : Result A × Server W F) : Type 0 where
    pub value : A
    pub after : Groups F
    pub returned : r.0 ≡ ok value
    pub step : Step s.manager.config.group_size view after c (reply value)
    pub whole : Whole r.1 after
    pub config : r.1.manager.config ≡ s.manager.config

  -- An operation on the shard of a core.
  invoke-WholeDone :
      {A : Type 0} (c : Call F) (reply : A → Reply F) (m : Action (Core W F) A) (sid : ℕ)
      (s : Server W F) (view : Groups F)
      → Whole s view
      → sid < count
      → ((shard : BufferShard F)
          → nth sid s.manager.shards ≡ some shard
          → (a : A) × (after : Groups F) × ((m (record { shard = shard; env = s.env })).0 ≡ ok a)
            × Changed rt v count sid
                (record { shard = shard; env = s.env })
                (m (record { shard = shard; env = s.env })).1
                after
            × Step s.manager.config.group_size view (merge rt count sid after view) c (reply a))
      → WholeDone c reply s view (invoke_on sid m s)
  unfolding invoke_on
  invoke-WholeDone c reply m sid s view w small does =
      let routed = invoke_on-Routed sid m s (omega (arith, w.size, small)) in
      let (a, after, returned, changed, step) = does routed.shard routed.found in
      let served =
        at-Served rt v count m sid 0 sid s.manager.shards s.env view after routed.shard
          (omega arith) routed.found w.sound w.apart changed in
      record {
        value = a;
        after = merge rt count sid after view;
        returned = routed.result ∙ returned;
        step = step;
        whole = record {
          positive = w.positive;
          size = routed.size ∙ w.size;
          sound = served.sound;
          apart = served.apart;
        };
        config = refl;
      }

module _ {W H F : Type 0} (rt : Runtime W H F) (v : View W H) (codec : IsCodec rt)
    (reliable : IsReliable rt v) (count : ℕ) where
  shard_sound :
      (sid : ℕ) (s : Server W F) (view : Groups F) (shard : BufferShard F)
      → Whole rt v count s view
      → nth sid s.manager.shards ≡ some shard
      → Sound rt v (record { shard = shard; env = s.env }) (part rt count sid view)
  shard_sound sid s view shard w found =
      subst (λ k. Sound rt v (record { shard = shard; env = s.env }) (part rt count k view))
        (omega arith)
        (AllSound-nth rt v count sid 0 s.manager.shards s.env view shard found w.sound)

  module _ (arrange : GroupMap F → GroupMap F) (reorders : IsReordering arrange) where
    -- The shard that a trajectory routes to has room for it.
    abbrev pub WriteRoom : Trajectory F → Server W F → Type 0
    WriteRoom t s =
        (shard : BufferShard F)
        → nth (shard_for rt count t.instance_id) s.manager.shards ≡ some shard
        → HasRoom rt arrange s.manager.config v (put t) (record { shard = shard; env = s.env })

    -- On a machine where no file operation fails, `write` does to the groups of the server what the
    -- contract allows.
    pub write-WholeDone :
        (t : Trajectory F) (s : Server W F) (view : Groups F)
        → Whole rt v count s view
        → WriteRoom t s
        → WholeDone rt v count (put t) accepted s view (write rt count arrange t s)
    unfolding write shard_for
    write-WholeDone t s view w room =
        let sid = shard_for rt count t.instance_id in
        let cfg = s.manager.config in
        invoke-WholeDone rt v count (put t) accepted (Write.write rt arrange cfg t) sid s view w
          (mod-lt _ w.positive)
          (λ shard found.
            let x =
              write-WriteDone rt v codec reliable arrange reorders cfg t
                (record { shard = shard; env = s.env }) (part rt count sid view)
                (shard_sound sid s view shard w found) (room shard found).0 (room shard found).1 in
            (
              x.reply,
              x.after,
              x.returned,
              record {
                storage = x.storage;
                framed = x.framed;
                sound = x.sound;
                foreign = put_foreign rt count sid view x.after refl x.step;
              },
              put_whole rt count sid view x.after refl x.step,
            ))

  without_foreign :
      (id : Str) (sid : ℕ) (view : Groups F) (q : Str)
      → shard_for rt count q ≢ sid
      → without rt v codec reliable id (part rt count sid view) q ≡ none
  without_foreign id sid view q n = elim (Str-discrete q id) [
    | yes p ↦ if_pos (Str-discrete q id) p _ _
    | no d ↦ if_neg (Str-discrete q id) d _ _ ∙ part_foreign rt count sid view q n
  ]

  merge-without :
      (id : Str) (sid : ℕ) (view : Groups F)
      → shard_for rt count id ≡ sid
      → (q : Str)
      → merge rt count sid (without rt v codec reliable id (part rt count sid view)) view q
        ≡ without rt v codec reliable id view q
  merge-without id sid view mine q = elim (ℕ_discrete (shard_for rt count q) sid) [
    | yes p ↦
        rw (if_pos (ℕ_discrete (shard_for rt count q) sid) p, part_mine rt count sid view q p) refl
    | no n ↦
        rw
          (
            if_neg (ℕ_discrete (shard_for rt count q) sid) n,
            if_neg (Str-discrete q id) (λ e. n (ap (shard_for rt count) e ∙ mine)),
          )
          refl
  ]

  -- On a machine where no file operation fails, `delete_instance` removes the group of its instance
  -- from the server, and no other.
  pub delete-WholeDone :
      (id : Str) (s : Server W F) (view : Groups F)
      → Whole rt v count s view
      → WholeDone rt v count (delete id) (λ _. done) s view (delete_instance rt count id s)
  unfolding delete_instance shard_for
  delete-WholeDone id s view w =
      let sid = shard_for rt count id in
      invoke-WholeDone rt v count (delete id) (λ _. done) (Manage.delete_instance rt id) sid s view
        w (mod-lt _ w.positive)
        (λ shard found.
          let x =
            delete-DeleteDone rt v codec reliable s.manager.config.group_size id
              (record { shard = shard; env = s.env }) (part rt count sid view)
              (shard_sound sid s view shard w found) in
          (
            tt,
            _,
            x.returned,
            record {
              storage = x.storage;
              framed = x.framed;
              sound = x.sound;
              foreign = without_foreign id sid view;
            },
            deleted id (merge-without id sid view refl),
          ))
