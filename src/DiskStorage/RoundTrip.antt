-- ===== src/DiskStorage/RoundTrip.antt =====
-- What `spill` of server/disk_storage.cc writes, and what `load` makes of it.
use transfer_queue.Prelude.{
  ℕ, suc, ◌+◌, ◌-◌, ◌%◌, ◌^◌, ◌≤◌, ◌<◌, ◌≡◌, refl, sym, ap, subst, ◌∙◌, true, false, [], ◌∷◌, ◌++◌,
  Option, some, Str, length, take, drop, Bool-cases, inl, inr, replicate, take_of_length-le,
  take-append, ltb, if◌then◌else◌, arith,
}
use native.Mathlib.Nat.{le_trans}
use transfer_queue.Action.{Action, Result, ok, err, group_too_large, finally, then_close}
use transfer_queue.Platform.Runtime.{Runtime, View, Quiet, Wrote, IsCodec, IsReliable}
use transfer_queue.Platform.{size_mod}
use transfer_queue.Proto.{TrajectoryGroup}
use transfer_queue.DiskStorage.{
  DiskStorage, Env, frame, total_size, aligned_size, write_file, spill, read_group, load, file_name,
  max_group_bytes, header_align,
}
use transfer_queue.DiskStorage.Words.{write_u32_le, read_u32_le}

-- The padding after a body.
abbrev padding : Str → Str
padding s = replicate (aligned_size (4 + length s) - (4 + length s)) 0

frame_lem : (s : Str) → length s < 2 ^ 31 → frame s ≡ write_u32_le (length s) ++ (s ++ padding s)
unfolding frame total_size
frame_lem s h =
    let small : length s % 2 ^ 32 ≡ length s = omega arith in
    let total : (4 + length s) % 2 ^ 32 ≡ 4 + length s = omega arith in
    rw (small, total, take_of_length-le (length s) s (omega arith))

header_of : (s : Str) → length s < 2 ^ 31 → take 4 (frame s) ≡ write_u32_le (length s)
unfolding write_u32_le
header_of s h = rw (frame_lem s h)

body_of : (s : Str) → length s < 2 ^ 31 → take (length s) (drop 4 (frame s)) ≡ s
unfolding write_u32_le
body_of s h = rw (frame_lem s h) (take-append s (padding s))

length_of : (s : Str) → length s < 2 ^ 31 → read_u32_le (write_u32_le (length s)) ≡ length s
unfolding write_u32_le read_u32_le
length_of s h = omega arith

length-header : (n : ℕ) → length (write_u32_le n) ≡ 4
unfolding write_u32_le
length-header n = refl

ltb_irrefl : (n : ℕ) → ltb n n ≡ false
ltb_irrefl n = ground arith

-- A body above the limit of `load` is refused.
unfoldable pub loaded : {F : Type 0} → ℕ → TrajectoryGroup F → Result (TrajectoryGroup F)
loaded n g = if ltb max_group_bytes n then err group_too_large else ok g

-- Closing changes no result.
then_close_lem :
    {S A : Type 0} (r : Result A × S) (c : Action S (Unit {0}))
    → (c r.1).0 ≡ ok tt
    → (then_close r c).0 ≡ r.0 × ((then_close r c).1 ≡ (c r.1).1)
then_close_lem (ok a, s) c e = rw e (refl, refl)
then_close_lem (err x, s) c e = (refl, refl)

append-injective : (a b c : Str) → a ++ b ≡ a ++ c → b ≡ c
append-injective [] b c e = e
append-injective (x ∷ a) b c e = append-injective a b c (cc)

module _ {W H : Type 0} (v : View W H) where
  pub Quiet-refl : (w : W) → Quiet v w w
  Quiet-refl w = record { same = λ q. refl; later = omega arith }

  pub Quiet-trans : {a b c : W} → Quiet v a b → Quiet v b c → Quiet v a c
  Quiet-trans p q = record { same = λ n. q.same n ∙ p.same n; later = le_trans p.later q.later }

  pub Quiet-Wrote :
      {a b c : W} {n : Str} {s : Option Str} → Quiet v a b → Wrote v n s b c → Wrote v n s a c
  Quiet-Wrote p q = record {
    there = q.there;
    same = λ m h. q.same m h ∙ p.same m;
    later = le_trans p.later q.later;
  }

  pub Wrote-Quiet :
      {a b c : W} {n : Str} {s : Option Str} → Wrote v n s a b → Quiet v b c → Wrote v n s a c
  Wrote-Quiet {n} p q = record {
    there = q.same n ∙ p.there;
    same = λ m h. q.same m ∙ p.same m h;
    later = le_trans p.later q.later;
  }

  pub Wrote-Wrote :
      {a b c : W} {n : Str} {s t : Option Str} → Wrote v n s a b → Wrote v n t b c → Wrote v n t a c
  Wrote-Wrote p q = record {
    there = q.there;
    same = λ m h. q.same m h ∙ p.same m h;
    later = le_trans p.later q.later;
  }

module _ {W H F : Type 0} (rt : Runtime W H F) (v : View W H) (ok_fs : IsReliable rt v) where
  -- Whatever stood in the file, it then holds the frame of the body.
  pub write_file_lem :
      (n body : Str) (w : W)
      → ((write_file rt n body w).0 ≡ ok tt)
        × Wrote v n (some (frame body)) w (write_file rt n body w).1
  unfolding write_file
  write_file_lem n body w =
      let (f, opened, named, emptied) = ok_fs.open_truncate_lem n w in
      let w₁ = (rt.open_truncate n w).1 in
      let size = aligned_size (total_size (length body % 2 ^ 32)) in
      let (alloc, quiet) = ok_fs.aligned_alloc_lem header_align size w₁ in
      let w₂ = (rt.aligned_alloc header_align size w₁).1 in
      let empty = quiet.same (v.name f) ∙ ap (v.contents w₁) named ∙ emptied.there in
      let (wrote, put) = ok_fs.dma_write_lem f (frame body) w₂ empty in
      let w₃ = (rt.dma_write f 0 (frame body) w₂).1 in
      let (closed, still) = ok_fs.close_lem f w₃ in
      rw (opened, alloc, wrote)
        (
          closed,
          Wrote-Quiet v
              (Wrote-Wrote v (Wrote-Quiet v emptied quiet)
                (subst (λ m. Wrote v m (some (frame body)) w₂ w₃) named put))
              still,
        )

  -- What a stream that stands at the start of a spilled file gives.
  pub read_group_lem :
      (f : H) (s : Str) (g : TrajectoryGroup F) (w : W)
      → length s < 2 ^ 31
      → rt.parse s ≡ some g
      → v.contents w (v.name f) ≡ some (frame s)
      → ((read_group rt f w).0 ≡ loaded (length s) g) × Quiet v w (read_group rt f w).1
  unfolding read_group loaded
  read_group_lem f s g w h parsed there =
      let (read, quiet) = ok_fs.read_exactly_lem f 0 4 (frame s) w there in
      let w₁ = (rt.read_exactly f 0 4 w).1 in
      let (body, quiet') =
        ok_fs.read_exactly_lem f 4 (length s) (frame s) w₁ (quiet.same (v.name f) ∙ there) in
      rw (read, header_of s h, length-header, length_of s h)
        (elim (Bool-cases (ltb max_group_bytes (length s))) [
          | inl over ↦ rw over (refl, quiet)
          | inr fits ↦
              rw
                (
                  fits,
                  body,
                  body_of s h,
                  ltb_irrefl,
                  take_of_length-le (length s) s (omega arith),
                  parsed,
                )
                (refl, Quiet-trans v quiet quiet')
        ])

  -- `in.close()`, then `f.close()`.
  close_both : H → Action W (Unit {0})
  close_both f = finally (rt.close_stream f) (rt.close f)

  close_both_lem : (f : H) (w : W) → ((close_both f w).0 ≡ ok tt) × Quiet v w (close_both f w).1
  unfolding close_both
  close_both_lem f w =
      let (closed, still) = ok_fs.close_stream_lem f w in
      let (closed', still') = ok_fs.close_lem f (rt.close_stream f w).1 in
      rw (closed, closed') (refl, Quiet-trans v still still')

  -- What `load` makes of a spilled file.
  pub load_lem :
      (d : DiskStorage) (id : ℕ) (s : Str) (g : TrajectoryGroup F) (w : W)
      → d.initialized ≡ true
      → length s < 2 ^ 31
      → rt.parse s ≡ some g
      → v.contents w (file_name rt d id) ≡ some (frame s)
      → ((load rt d id w).0 ≡ loaded (length s) g) × Quiet v w (load rt d id w).1
  unfolding load close_both
  load_lem d id s g w on h parsed there =
      let (f, opened, named, quiet) = ok_fs.open_read_lem (file_name rt d id) (frame s) w there in
      let w₁ = (rt.open_read (file_name rt d id) w).1 in
      let (read, quiet') =
        read_group_lem f s g w₁ h parsed
          (ap (v.contents w₁) named ∙ quiet.same (file_name rt d id) ∙ there) in
      let w₂ = (read_group rt f w₁).1 in
      let (closed, still) = close_both_lem f w₂ in
      let (same, last) = then_close_lem (read_group rt f w₁) (close_both f) closed in
      rw (on, opened)
        (
          same ∙ read,
          subst (Quiet v w) (sym last) (Quiet-trans v (Quiet-trans v quiet quiet') still),
        )

  -- The file name of each id is its own.
  pub file_name-injective :
      (d : DiskStorage) (i j : ℕ) → IsCodec rt → file_name rt d i ≡ file_name rt d j → i ≡ j
  file_name-injective d i j c e =
      c.to_string-injective i j (cc (append-injective d.bdev_name _ _ e))

  -- What `spill` does to a process and its world.
  pub record Spilled (d : DiskStorage) (s : Str) (env : Env W) (r : Result ℕ × Env W) (id : ℕ)
      : Type 0 where
    pub returned : r.0 ≡ ok id
    pub wrote : Wrote v (file_name rt d id) (some (frame s)) env.world r.1.world
    pub fresh : v.time env.world + env.counter ≤ id
    pub next : id < v.time r.1.world + r.1.counter
    pub counter : r.1.counter ≡ suc env.counter
    pub nonzero : 0 < id

  pub spill_lem :
      (d : DiskStorage) (g : TrajectoryGroup F) (s : Str) (env : Env W)
      → d.initialized ≡ true
      → rt.serialize g ≡ some s
      → env.counter < 2 ^ 63
      → (id : ℕ) × Spilled d s env (spill rt d g env) id
  unfolding spill
  spill_lem d g s env on written few =
      let (t, told, positive, bounded, late, time, same) = ok_fs.now_lem env.world in
      let w₁ = (rt.now env.world).1 in
      let (done, wrote) = write_file_lem (file_name rt d (t + env.counter)) s w₁ in
      let small : (t + env.counter) % size_mod ≡ t + env.counter = omega arith in
      (
        t + env.counter,
        rw (on, written, told, small, done)
            (record {
              returned = refl;
              wrote = record {
                there = wrote.there;
                same = λ q h. wrote.same q h ∙ same q;
                later = omega (arith, wrote.later);
              };
              fresh = omega arith;
              next = omega (arith, wrote.later);
              counter = omega arith;
              nonzero = omega arith;
            }),
      )

  -- On a machine where no file operation fails, a group that is spilled is loaded back, from any
  -- later world with the same files, exactly if its serialised form has at most 100 MiB; above
  -- that `load` refuses it.
  pub load-spill :
      (d : DiskStorage) (g : TrajectoryGroup F) (s : Str) (env : Env W) (later : W)
      → IsCodec rt
      → d.initialized ≡ true
      → rt.serialize g ≡ some s
      → env.counter < 2 ^ 63
      → ((q : Str) → v.contents later q ≡ v.contents (spill rt d g env).1.world q)
      → (id : ℕ) × ((spill rt d g env).0 ≡ ok id) × ((load rt d id later).0 ≡ loaded (length s) g)
  load-spill d g s env later c on written few same =
      let (id, sp) = spill_lem d g s env on written few in
      (
        id,
        sp.returned,
        (load_lem d id s g later on (c.limit g s written) (c.parse-serialize g s written)
            (same (file_name rt d id) ∙ sp.wrote.there)).0,
      )
