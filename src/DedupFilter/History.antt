-- ===== src/DedupFilter/History.antt =====
-- Whole histories of the filter of server/dedup_filter.cc: the constructor, sequences of
-- insertions, and for how long a uid is remembered.
use transfer_queue.Prelude.{
  ℕ, zero, suc, ◌+◌, ◌≤◌, ◌<◌, ◌≡◌, ◌≢◌, refl, ap, ◌∙◌, max, Bool, true, false, List, [], ◌∷◌, Str,
  Str-discrete, length, take, take-take, length-replicate, arith,
}
use transfer_queue.Platform.{Double}
use transfer_queue.DedupFilter.Bloom.{optimal_bit_count}
use transfer_queue.DedupFilter.{DedupFilter, make, clear, insert}
use transfer_queue.DedupFilter.Order.{iterator_of, member, remove}
use transfer_queue.DedupFilter.Refines.{lru_insert, held, IsValid, insert-Inserted}

module _ {F : Type 0} (hash : Str → ℕ) where
  -- The constructor builds a valid empty filter, whatever the arithmetic of `double` gives.
  pub make-IsValid :
      (d : Double F) (n : ℕ) (p : F)
      → IsValid hash (make d n p) × (held (make d n p) ≡ []) × ((make d n p).max_size ≡ max n 1)
  unfolding make optimal_bit_count iterator_of
  make-IsValid d n p = (
    record {
      linked = record {
        positive = omega arith;
        sized = refl;
        mapped = λ u. ground arith;
        distinct = tt;
        fresh = tt;
      };
      bounded = omega arith;
      bits = ground (arith, length-replicate (optimal_bit_count d (max n 1) p) false);
      covers = tt;
    },
    refl,
    refl,
  )

  -- `clear` forgets every uid and keeps the capacity and the invariant.
  pub clear-IsValid :
      (f : DedupFilter F)
      → IsValid hash f
      → IsValid hash (clear f) × (held (clear f) ≡ []) × ((clear f).max_size ≡ f.max_size)
  unfolding clear iterator_of
  clear-IsValid f v = (
    record {
      linked = record {
        positive = v.linked.positive;
        sized = refl;
        mapped = λ u. refl;
        distinct = tt;
        fresh = tt;
      };
      bounded = omega arith;
      bits = omega (arith, v.bits, length-replicate (length f.bloom.bits) false);
      covers = tt;
    },
    refl,
    refl,
  )

  -- `insert` keeps the invariant.
  pub insert-IsValid :
      (f : DedupFilter F) (u : Str) → IsValid hash f → IsValid hash (insert hash f u).0
  insert-IsValid f u v = (insert-Inserted hash f u v).valid

  -- `insert` returns what the contract returns, and holds the uids that the contract holds.
  pub insert-refines :
      (f : DedupFilter F) (u : Str)
      → IsValid hash f
      → (held (insert hash f u).0, (insert hash f u).1) ≡ lru_insert f.max_size (held f) u
  insert-refines f u v = (insert-Inserted hash f u v).refines

  -- A sequence of insertions, with what each returned.
  unfoldable pub insert_all : DedupFilter F → List Str → DedupFilter F × List Bool
  insert_all f [] = (f, [])
  insert_all f (u ∷ us) =
      let (g, fresh) = insert hash f u in let (h, rest) = insert_all g us in (h, fresh ∷ rest)

  pub insert_all-IsValid :
      (us : List Str) (f : DedupFilter F)
      → IsValid hash f
      → IsValid hash (insert_all f us).0 × ((insert_all f us).0.max_size ≡ f.max_size)
  unfolding insert_all
  insert_all-IsValid [] f v = (v, refl)
  insert_all-IsValid (u ∷ us) f v =
      let i = insert-Inserted hash f u v in
      let (valid, size) = insert_all-IsValid us (insert hash f u).0 i.valid in
      (valid, size ∙ i.max_size)

-- The same of the contract.
unfoldable pub lru_run : ℕ → List Str → List Str → List Str × List Bool
lru_run cap l [] = (l, [])
lru_run cap l (u ∷ us) =
    let (k, fresh) = lru_insert cap l u in let (m, rest) = lru_run cap k us in (m, fresh ∷ rest)

module _ {F : Type 0} (hash : Str → ℕ) where
  -- Over any sequence of insertions, what the filter answers and holds is what the contract does.
  pub insert_all-refines :
      (us : List Str) (f : DedupFilter F)
      → IsValid hash f
      → (held (insert_all hash f us).0, (insert_all hash f us).1) ≡ lru_run f.max_size (held f) us
  unfolding insert_all lru_run
  insert_all-refines [] f v = refl
  insert_all-refines (u ∷ us) f v =
      let i = insert-Inserted hash f u v in
      let more = insert_all-refines us (insert hash f u).0 i.valid in
      rw (← i.refines, ← (rw i.max_size at more))

-- In the contract a uid moves back by one place at most with each insertion.
member-take_mono :
    (k : ℕ) (u : Str) (l : List Str) → member u (take k l) ≡ true → member u (take (suc k) l) ≡ true
unfolding member
member-take_mono zero u l e = absurd (ground arith)
member-take_mono (suc k) u [] e = e
member-take_mono (suc k) u (w ∷ l) e = ground (arith, member-take_mono k u l)

member-take : (k : ℕ) (u : Str) (l : List Str) → member u (take k l) ≡ true → member u l ≡ true
unfolding member
member-take zero u l e = absurd (ground arith)
member-take (suc k) u [] e = e
member-take (suc k) u (w ∷ l) e = ground (arith, member-take k u l)

member-remove :
    (k : ℕ) (u v : Str) (l : List Str)
    → u ≢ v
    → member u (take k l) ≡ true
    → member u (take k (remove v l)) ≡ true
unfolding member remove
member-remove zero u v l h e = e
member-remove (suc k) u v [] h e = e
member-remove (suc k) u v (w ∷ l) h e =
    ground (arith, member-take_mono k u l, member-remove k u v l h)

moves_back :
    (cap k : ℕ) (u v : Str) (l : List Str)
    → k < cap
    → member u (take k l) ≡ true
    → member u (take (suc k) (lru_insert cap l v).0) ≡ true
unfolding lru_insert member
moves_back zero k u v l h e = absurd (omega arith)
moves_back (suc cap) k u v l h e = elim (Str-discrete u v) [
  | yes p ↦ ground arith
  | no p ↦ ground (arith, member-remove k u v l p, ap (member u) (take-take k cap l (omega arith)))
]

stays_within :
    (cap k : ℕ) (u : Str) (us : List Str) (l : List Str)
    → k + length us ≤ cap
    → member u (take k l) ≡ true
    → member u (lru_run cap l us).0 ≡ true
unfolding lru_run
stays_within cap k u [] l h e = member-take k u l e
stays_within cap k u (v ∷ us) l h e =
    stays_within cap (suc k) u us (lru_insert cap l v).0 (omega arith)
      (moves_back cap k u v l (omega arith) e)

heads :
    (cap : ℕ) (u : Str) (l : List Str) → 0 < cap → member u (take 1 (lru_insert cap l u).0) ≡ true
unfolding lru_insert member
heads zero u l h = absurd (omega arith)
heads (suc cap) u l h = ground arith

recent :
    (cap : ℕ) (u : Str) (us : List Str) (l : List Str)
    → 0 < cap
    → length us < cap
    → member u (lru_run cap l (u ∷ us)).0 ≡ true
unfolding lru_run
recent cap u us l p h =
    stays_within cap 1 u us (lru_insert cap l u).0 (omega arith) (heads cap u l p)

refused : (cap : ℕ) (l : List Str) (u : Str) → member u l ≡ true → (lru_insert cap l u).1 ≡ false
unfolding lru_insert
refused cap l u h = rw h

module _ {F : Type 0} (hash : Str → ℕ) where
  -- A uid that was inserted is reported as a duplicate after any fewer than `max_size` insertions
  -- of whatever uids.
  pub insert_again :
      (f : DedupFilter F) (u : Str) (us : List Str)
      → IsValid hash f
      → length us < f.max_size
      → (insert hash (insert_all hash f (u ∷ us)).0 u).1 ≡ false
  insert_again f u us v h =
      let (w, _) = insert_all-IsValid hash (u ∷ us) f v in
      ap (λ (r : List Str × Bool). r.1) (insert-refines hash _ u w)
      ∙ refused _ _ u (
          ap (λ (r : List Str × List Bool). member u r.0) (insert_all-refines hash (u ∷ us) f v)
          ∙ recent f.max_size u us (held f) v.linked.positive h)
