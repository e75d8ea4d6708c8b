-- ===== src/DedupFilter/Tests.antt =====
-- The filter of server/dedup_filter.cc on concrete uids, and the theorems at concrete inputs.
use transfer_queue.Prelude.{
  ℕ, ◌≤◌, ◌≡◌, refl, true, false, ltb, if◌then◌else◌, [], ◌∷◌, Str, Str-discrete, ℕ_discrete,
  length, arith,
}
use transfer_queue.Platform.Fixed.{fixed}
use transfer_queue.Platform.UnorderedMap
use transfer_queue.DedupFilter.Bloom.{
  bloom_hash, add_from, bloom_add, maybe_from, bloom_maybe_contains, add_all, bloom_rebuild,
  optimal_bit_count, optimal_hash_count,
}
use transfer_queue.DedupFilter.{
  DedupFilter, make, contains, insert, push_new, evict_oldest, evict_loop, drop_oldest, rebuild_if,
  splice_front, find_node, remove_node, split_last,
}
use transfer_queue.DedupFilter.Order.{member, remove}
use transfer_queue.DedupFilter.Evict.{Linked, Evicted, evict_loop-Evicted}
use transfer_queue.DedupFilter.Refines.{lru_insert, held, IsValid, contains-member}
use transfer_queue.DedupFilter.History.{
  make-IsValid, insert-IsValid, insert_all, insert_all-IsValid, insert_all-refines, lru_run,
  insert_again,
}

program : Unit {0}
unfolding bloom_hash add_from bloom_add maybe_from bloom_maybe_contains add_all bloom_rebuild
    optimal_bit_count optimal_hash_count make contains insert push_new evict_oldest evict_loop
    drop_oldest rebuild_if splice_front find_node remove_node split_last UnorderedMap.assign
    UnorderedMap.erase insert_all Str-discrete ℕ_discrete member remove lru_insert lru_run
program = tt

abbrev uid_a : Str
uid_a = b'a' ∷ []

abbrev uid_b : Str
uid_b = b'b' ∷ []

abbrev uid_c : Str
uid_c = b'c' ∷ []

-- An empty filter for two uids.
abbrev fresh : DedupFilter ℕ
fresh = make fixed 2 10

fresh-IsValid : IsValid length fresh
fresh-IsValid = (make-IsValid length fixed 2 10).0

abbrev inserted : DedupFilter ℕ
inserted = (insert length fresh uid_a).0

inserted-IsValid : IsValid length inserted
inserted-IsValid = insert-IsValid length fresh uid_a fresh-IsValid

-- A third uid evicts the first, which then counts as new.
evicts_oldest :
    (insert_all length fresh (uid_a ∷ uid_b ∷ uid_a ∷ uid_c ∷ uid_b ∷ [])).1
    ≡ true ∷ true ∷ false ∷ true ∷ true ∷ []
unfolding program
evicts_oldest = refl

contains-member_example : contains length inserted uid_b ≡ member uid_b (held inserted)
contains-member_example = contains-member length inserted uid_b inserted-IsValid

insert_all-refines_example :
    (
      held (insert_all length fresh (uid_a ∷ uid_b ∷ uid_c ∷ [])).0,
      (insert_all length fresh (uid_a ∷ uid_b ∷ uid_c ∷ [])).1,
    )
    ≡ lru_run fresh.max_size (held fresh) (uid_a ∷ uid_b ∷ uid_c ∷ [])
insert_all-refines_example =
    insert_all-refines length (uid_a ∷ uid_b ∷ uid_c ∷ []) fresh fresh-IsValid

insert_again_example :
    (insert length (insert_all length fresh (uid_a ∷ uid_b ∷ [])).0 uid_a).1 ≡ false
insert_again_example =
    insert_again length fresh uid_a (uid_b ∷ []) fresh-IsValid
      (omega (arith, (make-IsValid length fixed 2 10).2))

-- Two uids where there is room for one.
abbrev crowded : DedupFilter ℕ
crowded = record (insert_all length fresh (uid_a ∷ uid_b ∷ [])).0 { max_size = 1 }

crowded-Linked : Linked crowded
crowded-Linked =
    let v = (insert_all-IsValid length (uid_a ∷ uid_b ∷ []) fresh fresh-IsValid).0.linked in
    record {
      positive = omega arith;
      sized = v.sized;
      mapped = v.mapped;
      distinct = v.distinct;
      fresh = v.fresh;
    }

crowded-two : crowded.lru_map.size ≤ 2
crowded-two =
    let v = (insert_all-IsValid length (uid_a ∷ uid_b ∷ []) fresh fresh-IsValid) in
    omega (arith, v.0.bounded, v.1, (make-IsValid length fixed 2 10).2)

evict_loop-Evicted_example :
    Evicted crowded (evict_loop 2 crowded false).0
    × ((evict_loop 2 crowded false).1
        ≡ (if ltb crowded.max_size crowded.lru_map.size then true else false))
evict_loop-Evicted_example = evict_loop-Evicted 2 crowded false crowded-Linked crowded-two
