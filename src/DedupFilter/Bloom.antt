-- ===== src/DedupFilter/Bloom.antt =====
-- The Bloom filter of server/dedup_filter.cc: the bit vector and its hash functions.
use Prim.Native.Nat.{bit_xor}
use transfer_queue.Prelude.{
  ℕ, zero, suc, ◌+◌, ◌-◌, ◌*◌, ◌%◌, max, Bool, true, false, ◌||◌, List, [], ◌∷◌, Str, length, set,
  get_or, replicate, ltb, ◌==◌, if◌then◌else◌,
}
use transfer_queue.Platform.{Double, size_mod}

-- `bloom_bits_` and `bloom_num_hashes_`.
pub record BloomFilter : Type 0 where
  pub bits : List Bool
  pub num_hashes : ℕ

-- `static_cast<size_t>(c)` of a `char`, which is signed on x86-64.
abbrev pub size_of_char : ℕ → ℕ
size_of_char c = if ltb c 128 then c else size_mod - 256 + c

-- The loop of FNV-1a, from the hash value reached so far.
unfoldable pub fnv1a : ℕ → Str → ℕ
fnv1a h2 [] = h2
fnv1a h2 (c ∷ cs) = fnv1a (bit_xor h2 (size_of_char c) * 1099511628211 % size_mod) cs

-- `std::fill` of the bits with false.
abbrev pub cleared : BloomFilter → BloomFilter
cleared b = record b { bits = replicate (length b.bits) false }

module _ {F : Type 0} (d : Double F) where
  unfoldable pub optimal_bit_count : ℕ → F → ℕ
  optimal_bit_count expected_elements fpr =
      if expected_elements == 0 || d.le fpr (d.decimal 0 1) || d.le (d.decimal 10 1) fpr
      then 1024
      else max (d.to_uint m) 64
    where
      m : F
      m =
          d.div (d.mul (d.neg (d.of_uint expected_elements)) (d.log fpr))
            (d.mul (d.log (d.decimal 20 1)) (d.log (d.decimal 20 1)))

  unfoldable pub optimal_hash_count : ℕ → ℕ → ℕ
  optimal_hash_count bit_count expected_elements =
      if expected_elements == 0
      then 1
      else max
          (d.to_uint (
            d.mul (d.div (d.of_uint bit_count) (d.of_uint expected_elements))
              (d.log (d.decimal 20 1))))
          1

-- `hash` is `std::hash<std::string>`.
module _ (hash : Str → ℕ) where
  unfoldable pub bloom_hash : List Bool → Str → ℕ → ℕ
  unfolding fnv1a
  bloom_hash bits uid i = (hash uid + i * fnv1a 14695981039346656037 uid) % size_mod % length bits

  -- The loop of `bloom_add`, `n` rounds before its end.
  unfoldable pub add_from : ℕ → ℕ → Str → List Bool → List Bool
  add_from zero i uid bits = bits
  add_from (suc n) i uid bits = add_from n (i + 1) uid (set bits (bloom_hash bits uid i) true)

  unfoldable pub bloom_add : Str → BloomFilter → BloomFilter
  bloom_add uid b = record b { bits = add_from b.num_hashes 0 uid b.bits }

  -- The loop of `bloom_maybe_contains`, `n` rounds before its end.
  unfoldable pub maybe_from : ℕ → ℕ → Str → List Bool → Bool
  maybe_from zero i uid bits = true
  maybe_from (suc n) i uid bits =
      if get_or bits (bloom_hash bits uid i) false then maybe_from n (i + 1) uid bits else false

  unfoldable pub bloom_maybe_contains : Str → BloomFilter → Bool
  bloom_maybe_contains uid b = maybe_from b.num_hashes 0 uid b.bits

  -- The loop of `bloom_rebuild` over the uids of the list.
  unfoldable pub add_all : List Str → BloomFilter → BloomFilter
  add_all [] b = b
  add_all (uid ∷ uids) b = add_all uids (bloom_add uid b)

  unfoldable pub bloom_rebuild : List Str → BloomFilter → BloomFilter
  bloom_rebuild uids b = add_all uids (cleared b)
