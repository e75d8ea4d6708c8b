-- ===== src/DedupFilter.antt =====
-- server/dedup_filter.h and dedup_filter.cc: the UID filter, an exact LRU set behind a Bloom filter.
-- A node of `lru_list_` has an identity, which is what an iterator in `lru_map_` holds.
pub mod Bloom
pub mod NoFalseNegative
pub mod Order
pub mod Evict
pub mod Refines
pub mod History
mod Tests
unfoldable pub use Bloom.*
use transfer_queue.Prelude.{
  ℕ, zero, suc, ◌+◌, max, Bool, true, false, List, [], ◌∷◌, map, Option, none, some, is_some, ite,
  Str, ◌||◌, ◌==◌, length, ltb, if◌then◌else◌, replicate, ℕ_discrete,
}
use transfer_queue.Platform.{Double, size_mod}
use transfer_queue.Platform.UnorderedMap
use transfer_queue.Platform.UnorderedMap.{UnorderedMap}

pub record Node : Type 0 where
  pub iterator : ℕ
  pub uid : Str

-- `next_iterator` is the identity of the next node that the list allocates.
pub record DedupFilter (F : Type 0) : Type 0 where
  pub max_size : ℕ
  pub false_positive_rate : F
  pub bloom : BloomFilter
  pub lru_list : List Node
  pub lru_map : UnorderedMap ℕ
  pub next_iterator : ℕ

unfoldable pub find_node : ℕ → List Node → Option Node
find_node it [] = none
find_node it (n ∷ l) = ite (ℕ_discrete n.iterator it) (some n) (find_node it l)

unfoldable pub remove_node : ℕ → List Node → List Node
remove_node it [] = []
remove_node it (n ∷ l) = ite (ℕ_discrete n.iterator it) l (n ∷ remove_node it l)

-- `l.splice(l.begin(), l, it)`; an iterator into no node is undefined behaviour.
unfoldable pub splice_front : ℕ → List Node → List Node
splice_front it l = elim (find_node it l) [ none ↦ l | some n ↦ n ∷ remove_node it l ]

-- `back()` with what `pop_back()` leaves.
unfoldable pub split_last : List Node → Option (List Node × Node)
split_last [] = none
split_last (n ∷ l) = elim (split_last l) [
  | none ↦ some ([], n)
  | some (rest, oldest) ↦ some (n ∷ rest, oldest)
]

abbrev pub uids_of : List Node → List Str
uids_of = map (λ n. n.uid)

module _ {F : Type 0} (d : Double F) where
  -- The constructor.
  unfoldable pub make : ℕ → F → DedupFilter F
  make max_size false_positive_rate =
      let n = max max_size 1 in
      let bit_count = optimal_bit_count d n false_positive_rate in
      record {
        max_size = n;
        false_positive_rate = false_positive_rate;
        bloom = record {
          bits = replicate bit_count false;
          num_hashes = optimal_hash_count d bit_count n;
        };
        lru_list = [];
        lru_map = UnorderedMap.empty;
        next_iterator = 0;
      }

  unfoldable pub current_false_positive_rate : DedupFilter F → F
  current_false_positive_rate f =
      if length f.bloom.bits == 0 || f.lru_map.size == 0
      then d.decimal 0 1
      else let m = d.of_uint (length f.bloom.bits) in
        let n = d.of_uint f.lru_map.size in
        let k = d.of_uint f.bloom.num_hashes in
        d.pow (d.sub (d.decimal 10 1) (d.exp (d.div (d.mul (d.neg k) n) m))) k

module _ {F : Type 0} where
  pub size : DedupFilter F → ℕ
  size f = f.lru_map.size

  pub bloom_bit_count : DedupFilter F → ℕ
  bloom_bit_count f = length f.bloom.bits

  pub bloom_hash_count : DedupFilter F → ℕ
  bloom_hash_count f = f.bloom.num_hashes

  unfoldable pub clear : DedupFilter F → DedupFilter F
  clear f = record f { lru_list = []; lru_map = UnorderedMap.empty; bloom = cleared f.bloom }

  -- One round of the loop of `evict_oldest`: `back()` of an empty list is undefined behaviour.
  unfoldable pub drop_oldest : DedupFilter F → DedupFilter F
  drop_oldest f = elim (split_last f.lru_list) [
    | none ↦ f
    | some (rest, oldest) ↦ record f {
      lru_list = rest;
      lru_map = UnorderedMap.erase oldest.uid f.lru_map;
    }
  ]

  -- The loop, which also tells whether it made a round (`need_rebuild`).
  unfoldable pub evict_loop : ℕ → DedupFilter F → Bool → DedupFilter F × Bool
  evict_loop zero f need_rebuild = (f, need_rebuild)
  evict_loop (suc fuel) f need_rebuild = elim (ltb f.max_size f.lru_map.size) [
    | true ↦ evict_loop fuel (drop_oldest f) true
    | false ↦ (f, need_rebuild)
  ]

module _ (hash : Str → ℕ) {F : Type 0} where
  unfoldable pub contains : DedupFilter F → Str → Bool
  contains f uid =
      if bloom_maybe_contains hash uid f.bloom then is_some (f.lru_map.find uid) else false

  unfoldable pub rebuild_if : DedupFilter F × Bool → DedupFilter F
  rebuild_if (f, true) = record f { bloom = bloom_rebuild hash (uids_of f.lru_list) f.bloom }
  rebuild_if (f, false) = f

  unfoldable pub evict_oldest : DedupFilter F → DedupFilter F
  evict_oldest f = rebuild_if (evict_loop f.lru_map.size f false)

  -- The new node at the front, its entry in the map, and its bits.
  unfoldable pub push_new : DedupFilter F → Str → DedupFilter F
  push_new f uid = record f {
    lru_list = record { iterator = f.next_iterator; uid = uid } ∷ f.lru_list;
    lru_map = UnorderedMap.assign uid f.next_iterator f.lru_map;
    bloom = bloom_add hash uid f.bloom;
    next_iterator = suc f.next_iterator;
  }

  unfoldable pub insert : DedupFilter F → Str → DedupFilter F × Bool
  insert f uid = elim (f.lru_map.find uid) [
    | some it ↦ (record f { lru_list = splice_front it f.lru_list }, false)
    | none ↦
        let g = push_new f uid in
        (if ltb g.max_size g.lru_map.size then evict_oldest g else g, true)
  ]
