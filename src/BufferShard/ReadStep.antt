-- ===== src/BufferShard/ReadStep.antt =====
-- What a read of server/buffer_shard.cc with any limit does to each instance.
use transfer_queue.Prelude.{
  ℕ, ◌≤◌, ◌≡◌, ◌≢◌, refl, sym, subst, ◌∙◌, true, false, Bool-cases, Option-cases, inl, inr, List,
  [], ◌∷◌, ◌++◌, Option, none, some, Str, length, All, if◌then◌else◌, arith,
}
use native.Mathlib.Nat.{le_trans}
use transfer_queue.Platform.Runtime.{Runtime, View, IsCodec, IsReliable}
use transfer_queue.Proto.{TrajectoryGroup}
use transfer_queue.DiskStorage.{DiskStorage, Env, file_name}
use transfer_queue.DiskStorage.RoundTrip.{file_name-injective}
use transfer_queue.DiskStorage.Batch.{bound}
use transfer_queue.DiskStorage.Loads.{AllLoadable, Misses}
use transfer_queue.BufferShard.Groups.{GroupEntry, GroupMap, find, is_complete}
use transfer_queue.BufferShard.Entries.{Keyed}
use transfer_queue.BufferShard.Represents.{Matches}
use transfer_queue.BufferShard.Manage.{disk_offsets}
use transfer_queue.BufferShard.Consume.{ready_of, waiting}
use transfer_queue.BufferShard.Ready.{disk_entry}
use transfer_queue.BufferShard.Contract.{Groups, of_instance, Takes, left, taken}
use transfer_queue.BufferShard.Filed.{Filed, AllFiled, disk_groups, find-All, apart}
use transfer_queue.BufferShard.Takes.{Found, nowhere, waits, in_memory, on_disk, of_instance-append}
use transfer_queue.BufferShard.Parts.{find-append, find-waiting, Apart}

module _ {F : Type 0} where
  -- The group of an instance after a read that met its entry.
  abbrev pub after_read :
      Option (GroupEntry F) → Option (TrajectoryGroup F) → Option (TrajectoryGroup F)
  after_read none o = o
  after_read (some e) o = if is_complete e then none else o

  abbrev pub view_after : GroupMap F → Groups F → Groups F
  view_after first view q = after_read (find q first) (view q)

  pub after_read-some :
      (x : Option (GroupEntry F)) (o : Option (TrajectoryGroup F)) (g : TrajectoryGroup F)
      → after_read x o ≡ some g
      → o ≡ some g
  after_read-some none o g h = h
  after_read-some (some e) o g h = ground (arith, h)

module _ {W H F : Type 0} (rt : Runtime W H F) (v : View W H) (d : DiskStorage) where
  pub length-AllLoadable :
      (w : W) (ids : List ℕ) (gs : List (TrajectoryGroup F))
      → AllLoadable rt v d w ids gs
      → length gs ≡ length ids
  length-AllLoadable w [] [] h = refl
  length-AllLoadable w [] (g ∷ gs) h = absurd h
  length-AllLoadable w (id ∷ ids) [] h = absurd h
  length-AllLoadable w (id ∷ ids) (g ∷ gs) h = omega (arith, length-AllLoadable w ids gs h.1)

  module _ (view : Groups F) (env : Env W) (first : GroupMap F)
      (filed : AllFiled rt v d env view first) where
    -- The groups that the read returns.
    abbrev pub returned_groups : List (TrajectoryGroup F)
    returned_groups = ready_of first ++ disk_groups rt v d env view first filed

    abbrev taken_from :
        (q : Str)
        → of_instance q (ready_of first) ++ of_instance q (disk_groups rt v d env view first filed)
          ≡ of_instance q returned_groups
    taken_from q =
        sym (of_instance-append q (ready_of first) (disk_groups rt v d env view first filed))

    pub Found-Takes :
        (q : Str)
        → Found rt v d env view q first filed
        → Takes q returned_groups (view q) (view_after first view q)
    Found-Takes q (nowhere a b c) = left (sym (taken_from q) ∙ rw (b, c) refl) (rw (a) refl)
    Found-Takes q (waits e g a w p b c) =
        left (sym (taken_from q) ∙ rw (b, c) refl) (rw (a, w) refl)
    Found-Takes q (in_memory e g a w s f b c) =
        taken g (sym (taken_from q) ∙ rw (b, c) refl) s f (rw (a, w) refl)
    Found-Takes q (on_disk e g a w s f b c) =
        taken g (sym (taken_from q) ∙ rw (b, c) refl) s f (rw (a, w) refl)

    module _ (codec : IsCodec rt) (reliable : IsReliable rt v) (on : d.initialized ≡ true)
        (env' : Env W)
        (same : (q : Str)
          → Misses rt v d q (disk_offsets first)
          → v.contents env'.world q ≡ v.contents env.world q)
        (grows : bound rt v d env ≤ bound rt v d env') where
      Misses-apart :
          (n : ℕ) (ids : List ℕ) → All (λ o. o ≢ n) ids → Misses rt v d (file_name rt d n) ids
      Misses-apart n [] h = tt
      Misses-apart n (o ∷ ids) h =
          (λ e. h.0 (sym (file_name-injective rt v reliable d n o codec e)), Misses-apart n ids h.1)

      -- What the scan did not reach stands as before.
      rest-Matches :
          (q : Str) (o : Option (GroupEntry F))
          → find q first ≡ none
          → ((e : GroupEntry F) → o ≡ some e → Filed rt v d env view q e)
          → (g : Option (TrajectoryGroup F)) → Matches rt v d env o g
          → Matches rt v d env' o g
      rest-Matches q none a f none m = tt
      rest-Matches q none a f (some g) m = m
      rest-Matches q (some e) a f none m = m
      rest-Matches q (some e) a f (some g) (inl m) = inl m
      rest-Matches q (some e) a f (some g) (inr m) = inr (record {
        pointer = m.pointer;
        disk = record {
          body = m.disk.body;
          serialized = m.disk.serialized;
          file =
              same (file_name rt d e.disk_offset) (
                Misses-apart e.disk_offset (disk_offsets first) (
                  apart rt v d env view codec reliable on q e first (f e refl)
                    (disk_entry rt v d env e g m) filed a))
              ∙ m.disk.file;
          nonzero = m.disk.nonzero;
        };
        given = le_trans m.given grows;
        complete = m.complete;
        cached = m.cached;
      })

      waiting-Matches :
          (q : Str) (e : GroupEntry F)
          → is_complete e ≡ false
          → Filed rt v d env view q e
          → Matches rt v d env' (some e) (view q)
      unfolding is_complete
      waiting-Matches q e more f = elim f.keeps [
        | inl m ↦ rw (f.here) (inl m)
        | inr s ↦ absurd (ground (arith, more, s.0.pointer))
      ]

      pub parts-Matches :
          (rest : GroupMap F)
          → Keyed first
          → Apart first rest
          → AllFiled rt v d env view rest
          → ((q : Str) → Matches rt v d env (find q (first ++ rest)) (view q))
          → (q : Str)
          → Matches rt v d env' (find q (waiting first ++ rest)) (view_after first view q)
      parts-Matches rest keyed away restf m q = elim (Option-cases (find q first)) [
        | inl a ↦
            rw (find-append q (waiting first) rest, find-waiting q first keyed, a)
              (rest-Matches q (find q rest) a (λ e there. find-All _ q e rest restf there) (view q)
                (subst (λ o. Matches rt v d env o (view q)) (find-append q first rest ∙ rw (a) refl)
                  (m q)))
        | inr (e, a) ↦ elim (Bool-cases (is_complete e)) [
          | inl done ↦
              rw
                (
                  find-append q (waiting first) rest,
                  find-waiting q first keyed,
                  a,
                  done,
                  away q e a,
                )
                tt
          | inr more ↦
              rw (find-append q (waiting first) rest, find-waiting q first keyed, a, more)
                (waiting-Matches q e more (find-All _ q e first filed a))
        ]
      ]
