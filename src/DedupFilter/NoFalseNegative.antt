-- ===== src/DedupFilter/NoFalseNegative.antt =====
-- The Bloom filter of server/dedup_filter.cc on the uids that were added to it.
use transfer_queue.Prelude.{
  ℕ, zero, suc, ◌+◌, ◌<◌, ◌≡◌, refl, ◌∙◌, Bool, true, false, List, [], ◌∷◌, Str, Bool-cases, inl,
  inr, length, set, get_or, length-set, get_or-set_self, length-replicate, All, arith,
}
use native.Mathlib.Nat.{mod-lt}
use transfer_queue.DedupFilter.Bloom.{
  BloomFilter, bloom_hash, add_from, bloom_add, maybe_from, bloom_maybe_contains, add_all, cleared,
  bloom_rebuild,
}

-- Same size, and no bit lost.
pub record Grows (bits bits' : List Bool) : Type 0 where
  pub size : length bits' ≡ length bits
  pub kept : (j : ℕ) → get_or bits j false ≡ true → get_or bits' j false ≡ true

pub Grows-refl : (bits : List Bool) → Grows bits bits
Grows-refl bits = record { size = refl; kept = λ j h. h }

pub Grows-trans : {a b c : List Bool} → Grows a b → Grows b c → Grows a c
Grows-trans g h = record { size = h.size ∙ g.size; kept = λ j e. h.kept j (g.kept j e) }

set-kept :
    (bits : List Bool) (i j : ℕ)
    → get_or bits j false ≡ true
    → get_or (set bits i true) j false ≡ true
set-kept [] i j h = h
set-kept (b ∷ bits) zero zero h = refl
set-kept (b ∷ bits) zero (suc j) h = h
set-kept (b ∷ bits) (suc i) zero h = h
set-kept (b ∷ bits) (suc i) (suc j) h = set-kept bits i j h

set-Grows : (bits : List Bool) (i : ℕ) → Grows bits (set bits i true)
set-Grows bits i = record { size = length-set bits i true; kept = set-kept bits i }

module _ (hash : Str → ℕ) where
  bloom_hash-size :
      (bits bits' : List Bool) (uid : Str) (i : ℕ)
      → length bits' ≡ length bits
      → bloom_hash hash bits' uid i ≡ bloom_hash hash bits uid i
  unfolding bloom_hash
  bloom_hash-size bits bits' uid i e = rw e

  pub bloom_hash-lt :
      (bits : List Bool) (uid : Str) (i : ℕ)
      → 0 < length bits
      → bloom_hash hash bits uid i < length bits
  unfolding bloom_hash
  bloom_hash-lt bits uid i h = mod-lt _ h

  add_from-Grows :
      (n i : ℕ) (uid : Str) (bits : List Bool) → Grows bits (add_from hash n i uid bits)
  unfolding add_from
  add_from-Grows zero i uid bits = Grows-refl bits
  add_from-Grows (suc n) i uid bits =
      Grows-trans (set-Grows bits (bloom_hash hash bits uid i)) (add_from-Grows n (i + 1) uid _)

  maybe_from-Grows :
      (n i : ℕ) (uid : Str) (bits bits' : List Bool)
      → Grows bits bits'
      → maybe_from hash n i uid bits ≡ true
      → maybe_from hash n i uid bits' ≡ true
  unfolding maybe_from
  maybe_from-Grows zero i uid bits bits' g h = refl
  maybe_from-Grows (suc n) i uid bits bits' g h =
      elim (Bool-cases (get_or bits (bloom_hash hash bits uid i) false)) [
        | inl hit ↦
            rw (bloom_hash-size bits bits' uid i g.size, g.kept _ hit)
              (maybe_from-Grows n (i + 1) uid bits bits' g (rw hit at h))
        | inr miss ↦ ground arith
      ]

  maybe_from-add_from :
      (n i : ℕ) (uid : Str) (bits : List Bool)
      → 0 < length bits
      → maybe_from hash n i uid (add_from hash n i uid bits) ≡ true
  unfolding maybe_from add_from
  maybe_from-add_from zero i uid bits h = refl
  maybe_from-add_from (suc n) i uid bits h =
      rw (bloom_hash-size bits (add_from hash n (i + 1) uid marked) uid i (grown.size ∙ sized), bit)
        (maybe_from-add_from n (i + 1) uid marked (omega (arith, sized)))
    where
      marked : List Bool
      marked = set bits (bloom_hash hash bits uid i) true

      sized : length marked ≡ length bits
      sized = length-set bits _ true

      grown : Grows marked (add_from hash n (i + 1) uid marked)
      grown = add_from-Grows n (i + 1) uid marked

      bit : get_or (add_from hash n (i + 1) uid marked) (bloom_hash hash bits uid i) false ≡ true
      bit = grown.kept _ (get_or-set_self bits _ true false (bloom_hash-lt bits uid i h))

  -- `b'` answers yes wherever `b` does.
  pub record Extends (b b' : BloomFilter) : Type 0 where
    pub size : length b'.bits ≡ length b.bits
    pub hashes : b'.num_hashes ≡ b.num_hashes
    pub kept :
        (u : Str) → bloom_maybe_contains hash u b ≡ true → bloom_maybe_contains hash u b' ≡ true

  Extends-refl : (b : BloomFilter) → Extends b b
  Extends-refl b = record { size = refl; hashes = refl; kept = λ u h. h }

  Extends-trans : {a b c : BloomFilter} → Extends a b → Extends b c → Extends a c
  Extends-trans p q = record {
    size = q.size ∙ p.size;
    hashes = q.hashes ∙ p.hashes;
    kept = λ u h. q.kept u (p.kept u h);
  }

  pub bloom_add-Extends : (uid : Str) (b : BloomFilter) → Extends b (bloom_add hash uid b)
  unfolding bloom_add bloom_maybe_contains
  bloom_add-Extends uid b = record { size = grown.size; hashes = refl; kept = λ u h. kept u h }
    where
      grown : Grows b.bits (add_from hash b.num_hashes 0 uid b.bits)
      grown = add_from-Grows b.num_hashes 0 uid b.bits

      kept :
          (u : Str)
          → maybe_from hash b.num_hashes 0 u b.bits ≡ true
          → maybe_from hash b.num_hashes 0 u (add_from hash b.num_hashes 0 uid b.bits) ≡ true
      kept u h = maybe_from-Grows b.num_hashes 0 u b.bits _ grown h

  -- A uid that was just added is not denied, whatever the hash functions are.
  pub maybe_contains-bloom_add :
      (uid : Str) (b : BloomFilter)
      → 0 < length b.bits
      → bloom_maybe_contains hash uid (bloom_add hash uid b) ≡ true
  unfolding bloom_add bloom_maybe_contains
  maybe_contains-bloom_add uid b h = maybe_from-add_from b.num_hashes 0 uid b.bits h

  pub add_all-Extends : (uids : List Str) (b : BloomFilter) → Extends b (add_all hash uids b)
  unfolding add_all
  add_all-Extends [] b = Extends-refl b
  add_all-Extends (u ∷ uids) b =
      Extends-trans (bloom_add-Extends u b) (add_all-Extends uids (bloom_add hash u b))

  add_all-All :
      (uids : List Str) (b : BloomFilter)
      → 0 < length b.bits
      → All (λ u. bloom_maybe_contains hash u (add_all hash uids b) ≡ true) uids
  unfolding add_all
  add_all-All [] b h = tt
  add_all-All (u ∷ uids) b h =
      let added = bloom_add-Extends u b in
      (
        (add_all-Extends uids (bloom_add hash u b)).kept u (maybe_contains-bloom_add u b h),
        add_all-All uids (bloom_add hash u b) (omega (arith, added.size)),
      )

  pub length-bloom_rebuild :
      (uids : List Str) (b : BloomFilter) → length (bloom_rebuild hash uids b).bits ≡ length b.bits
  unfolding bloom_rebuild
  length-bloom_rebuild uids b =
      (add_all-Extends uids (cleared b)).size ∙ length-replicate (length b.bits) false

  -- After a rebuild no uid of the list is denied.
  pub bloom_rebuild-All :
      (uids : List Str) (b : BloomFilter)
      → 0 < length b.bits
      → All (λ u. bloom_maybe_contains hash u (bloom_rebuild hash uids b) ≡ true) uids
  unfolding bloom_rebuild
  bloom_rebuild-All uids b h =
      add_all-All uids (cleared b) (omega (arith, length-replicate (length b.bits) false))
