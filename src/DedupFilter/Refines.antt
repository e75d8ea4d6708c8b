-- ===== src/DedupFilter/Refines.antt =====
-- The filter of server/dedup_filter.cc against its contract, a list of the most recent uids.
use transfer_queue.Prelude.{
  ℕ, suc, ◌≤◌, ◌<◌, ◌≡◌, refl, sym, ap, ◌∙◌, Bool, true, false, Bool-cases, Option-cases, inl, inr,
  List, [], ◌∷◌, none, some, is_some, Str, Str-discrete, length, take, take_of_length-le,
  length-map, All, ltb, if◌then◌else◌, arith,
}
use transfer_queue.Platform.UnorderedMap
use transfer_queue.DedupFilter.Bloom.{BloomFilter, bloom_add, bloom_maybe_contains, bloom_rebuild}
use transfer_queue.DedupFilter.{
  DedupFilter, Node, contains, insert, push_new, evict_oldest, evict_loop, rebuild_if, splice_front,
  find_node, uids_of,
}
use transfer_queue.DedupFilter.NoFalseNegative.{
  Extends, bloom_add-Extends, maybe_contains-bloom_add, bloom_rebuild-All, length-bloom_rebuild,
}
use transfer_queue.DedupFilter.Order.{
  iterator_of, member, remove, member-uids_of, splice_front-Spliced,
}
use transfer_queue.DedupFilter.Evict.{Linked, Evicted, evict_loop-Evicted}

-- The contract: `l` holds the most recent uids, newest first, at most `cap` of them. The Boolean
-- is false for a uid that is among them.
unfoldable pub lru_insert : ℕ → List Str → Str → List Str × Bool
lru_insert cap l u = if member u l then (u ∷ remove u l, false) else (take cap (u ∷ l), true)

-- The uids that a filter holds, newest first.
abbrev pub held : {F : Type 0} → DedupFilter F → List Str
held f = uids_of f.lru_list

-- No uid of a list is denied by the Bloom filter.
abbrev pub Covers : (Str → ℕ) → BloomFilter → List Node → Type 0
Covers hash b = All (λ n. bloom_maybe_contains hash n.uid b ≡ true)

pub record IsValid {F : Type 0} (hash : Str → ℕ) (f : DedupFilter F) : Type 0 where
  pub linked : Linked f
  pub bounded : f.lru_map.size ≤ f.max_size
  pub bits : 0 < length f.bloom.bits
  pub covers : Covers hash f.bloom f.lru_list

-- The Bloom test of a listed uid passes.
Covers-listed :
    (hash : Str → ℕ) (b : BloomFilter) (u : Str) (l : List Node)
    → Covers hash b l
    → is_some (iterator_of u l) ≡ true
    → bloom_maybe_contains hash u b ≡ true
unfolding iterator_of
Covers-listed hash b u [] c h = absurd (ground arith)
Covers-listed hash b u (n ∷ l) c h = elim (Str-discrete u n.uid) [
  | yes p ↦ rw p c.0
  | no p ↦ Covers-listed hash b u l c.1 (ground arith)
]

Covers-Extends :
    (hash : Str → ℕ) (b b' : BloomFilter) (l : List Node)
    → Extends hash b b'
    → Covers hash b l
    → Covers hash b' l
Covers-Extends hash b b' [] e c = tt
Covers-Extends hash b b' (n ∷ l) e c = (e.kept n.uid c.0, Covers-Extends hash b b' l e c.1)

Covers-uids :
    (hash : Str → ℕ) (b : BloomFilter) (l : List Node)
    → All (λ u. bloom_maybe_contains hash u b ≡ true) (uids_of l)
    → Covers hash b l
Covers-uids hash b [] c = tt
Covers-uids hash b (n ∷ l) c = (c.0, Covers-uids hash b l c.1)

fresh_mono :
    (n : ℕ) (l : List Node)
    → All (λ m. m.iterator < n) l
    → All (λ m. m.iterator < suc n) l × (find_node n l ≡ none)
unfolding find_node
fresh_mono n [] a = (tt, refl)
fresh_mono n (m ∷ l) a =
    let (below, absent) = fresh_mono n l a.1 in ((omega arith, below), ground (arith, absent))

module _ {F : Type 0} (hash : Str → ℕ) where
  -- On a valid filter `contains` decides membership among the held uids exactly: the Bloom filter
  -- never hides one, and its false positives are filtered out.
  pub contains-member :
      (f : DedupFilter F) (u : Str) → IsValid hash f → contains hash f u ≡ member u (held f)
  unfolding contains
  contains-member f u v = elim (Bool-cases (is_some (iterator_of u f.lru_list))) [
    | inl listed ↦
        rw (Covers-listed hash f.bloom u f.lru_list v.covers listed)
          (ap is_some (v.linked.mapped u) ∙ sym (member-uids_of u f.lru_list))
    | inr absent ↦ ground (arith, member-uids_of u f.lru_list, v.linked.mapped u, absent)
  ]

  -- The state of a valid filter after an insertion, with what it returned.
  pub record Inserted (f : DedupFilter F) (u : Str) (r : DedupFilter F × Bool) : Type 0 where
    pub valid : IsValid hash r.0
    pub refines : (held r.0, r.1) ≡ lru_insert f.max_size (held f) u
    pub max_size : r.0.max_size ≡ f.max_size

  insert_known :
      (f : DedupFilter F) (u : Str) (it : ℕ)
      → IsValid hash f
      → f.lru_map.find u ≡ some it
      → Inserted f u (record f { lru_list = splice_front it f.lru_list }, false)
  unfolding lru_insert
  insert_known f u it v e =
      let listed = sym (v.linked.mapped u) ∙ e in
      let s = splice_front-Spliced u it f.lru_list v.linked.distinct listed in
      record {
        valid = record {
          linked = record {
            positive = v.linked.positive;
            sized = v.linked.sized ∙ sym s.size;
            mapped = λ q. v.linked.mapped q ∙ sym (s.same q);
            distinct = s.distinct;
            fresh = s.all (λ n. n.iterator < f.next_iterator) v.linked.fresh;
          };
          bounded = v.bounded;
          bits = v.bits;
          covers = s.all (λ n. bloom_maybe_contains hash n.uid f.bloom ≡ true) v.covers;
        };
        refines = rw (member-uids_of u f.lru_list, listed, s.uids) refl;
        max_size = refl;
      }

  push_new-Linked :
      (f : DedupFilter F) (u : Str)
      → IsValid hash f
      → f.lru_map.find u ≡ none
      → Linked (push_new hash f u)
  unfolding push_new UnorderedMap.assign iterator_of
  push_new-Linked f u v e =
      let (below, absent) = fresh_mono f.next_iterator f.lru_list v.linked.fresh in
      record {
        positive = v.linked.positive;
        sized = rw e (ap suc v.linked.sized);
        mapped = λ q. ground (arith, v.linked.mapped q);
        distinct = (sym (v.linked.mapped u) ∙ e, absent, v.linked.distinct);
        fresh = (omega arith, below);
      }

  push_new-Covers :
      (f : DedupFilter F) (u : Str)
      → IsValid hash f
      → Covers hash (push_new hash f u).bloom (push_new hash f u).lru_list
  unfolding push_new
  push_new-Covers f u v = (
    maybe_contains-bloom_add hash u f.bloom v.bits,
    Covers-Extends hash f.bloom (bloom_add hash u f.bloom) f.lru_list
        (bloom_add-Extends hash u f.bloom) v.covers,
  )

  -- `evict_oldest` on a filter that holds too much: the newest `max_size` uids, and their bits.
  rebuilt :
      (g g' : DedupFilter F)
      → 0 < length g.bloom.bits
      → Evicted g g'
      → IsValid hash (record g' { bloom = bloom_rebuild hash (uids_of g'.lru_list) g'.bloom })
  rebuilt g g' h e = record {
    linked = record {
      positive = e.linked.positive;
      sized = e.linked.sized;
      mapped = e.linked.mapped;
      distinct = e.linked.distinct;
      fresh = e.linked.fresh;
    };
    bounded = e.bounded;
    bits = omega (arith, length-bloom_rebuild hash (uids_of g'.lru_list) g'.bloom, size);
    covers =
        Covers-uids hash _ g'.lru_list
          (bloom_rebuild-All hash (uids_of g'.lru_list) g'.bloom (omega (arith, size)));
  }
    where
      size : length g'.bloom.bits ≡ length g.bloom.bits
      size = ap (λ (b : BloomFilter). length b.bits) e.bloom

  rebuild_if-true :
      (r : DedupFilter F × Bool)
      → r.1 ≡ true
      → rebuild_if hash r
        ≡ record r.0 { bloom = bloom_rebuild hash (uids_of r.0.lru_list) r.0.bloom }
  unfolding rebuild_if
  rebuild_if-true (f, true) e = refl
  rebuild_if-true (f, false) e = absurd (ground arith)

  -- The two ends of an insertion of a new uid.
  with_room :
      (f g : DedupFilter F) (u : Str)
      → member u (held f) ≡ false
      → held g ≡ u ∷ held f
      → g.max_size ≡ f.max_size
      → g.lru_map.size ≤ g.max_size
      → Linked g
      → 0 < length g.bloom.bits
      → Covers hash g.bloom g.lru_list
      → Inserted f u (g, true)
  unfolding lru_insert
  with_room f g u new uids same fits linked bits covers = record {
    valid = record { linked = linked; bounded = fits; bits = bits; covers = covers };
    refines =
        rw (new, uids)
          (ap (λ l. (l, true)) (sym (take_of_length-le f.max_size (u ∷ held f) short)));
    max_size = same;
  }
    where
      short : length (u ∷ held f) ≤ f.max_size
      short =
          omega (arith, ap length uids, length-map (λ (n : Node). n.uid) g.lru_list, linked.sized)

  without_room :
      (f g g' : DedupFilter F) (u : Str)
      → member u (held f) ≡ false
      → held g ≡ u ∷ held f
      → g.max_size ≡ f.max_size
      → 0 < length g.bloom.bits
      → Evicted g g'
      → Inserted f u (record g' { bloom = bloom_rebuild hash (uids_of g'.lru_list) g'.bloom }, true)
  unfolding lru_insert
  without_room f g g' u new uids same bits e = record {
    valid = rebuilt g g' bits e;
    refines = rw (new, e.uids, uids, same) refl;
    max_size = e.max_size ∙ same;
  }

  insert_new :
      (f : DedupFilter F) (u : Str)
      → IsValid hash f
      → f.lru_map.find u ≡ none
      → let g = push_new hash f u in
        Inserted f u (if ltb g.max_size g.lru_map.size then evict_oldest hash g else g, true)
  unfolding evict_oldest
  insert_new f u v e = elim (Bool-cases (ltb g.max_size g.lru_map.size)) [
    | inl over ↦
        let (evicted, told) = evict_loop-Evicted g.lru_map.size g false linked (omega arith) in
        rw (over, rebuild_if-true (evict_loop g.lru_map.size g false) (rw over at told))
          (without_room f g _ u new uids max_size bits evicted)
    | inr fits ↦
        rw fits
          (with_room f g u new uids max_size (ground arith) linked bits (push_new-Covers f u v))
  ]
    where
      g : DedupFilter F
      g = push_new hash f u

      linked : Linked g
      linked = push_new-Linked f u v e

      new : member u (held f) ≡ false
      new = member-uids_of u f.lru_list ∙ ap is_some (sym (v.linked.mapped u) ∙ e)

      uids : held g ≡ u ∷ held f
      uids = unfold push_new in refl

      max_size : g.max_size ≡ f.max_size
      max_size = unfold push_new in refl

      bits : 0 < length g.bloom.bits
      bits = unfold push_new in (omega (arith, (bloom_add-Extends hash u f.bloom).size, v.bits))

  -- `insert` does what the contract says and keeps the invariant, at every uid.
  pub insert-Inserted :
      (f : DedupFilter F) (u : Str) → IsValid hash f → Inserted f u (insert hash f u)
  unfolding insert
  insert-Inserted f u v = elim (Option-cases (f.lru_map.find u)) [
    | inl new ↦ rw (new, insert) (insert_new f u v new)
    | inr (it, known) ↦ rw (known, insert) (insert_known f u it v known)
  ]
