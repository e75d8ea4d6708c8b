-- ===== src/DedupFilter/Evict.antt =====
-- The invariant that ties `lru_map_` to `lru_list_`, and the loop of `evict_oldest`.
use transfer_queue.Prelude.{
  ℕ, zero, suc, ◌≤◌, ◌<◌, ◌≡◌, refl, sym, ap, ◌∙◌, Bool, true, Bool-cases, inl, inr, List, [], ◌∷◌,
  Str, length, take, take-take, take_of_length-le, length-map, subst, All, ltb, if◌then◌else◌,
  arith,
}
use transfer_queue.Platform.UnorderedMap
use transfer_queue.Platform.UnorderedMap.{UnorderedMap}
use transfer_queue.DedupFilter.{DedupFilter, Node, drop_oldest, evict_loop, uids_of}
use transfer_queue.DedupFilter.Order.{iterator_of, Distinct, Shortened, split_last-Shortened}

-- The map sends each uid of the list to its node, and counts the nodes; the list repeats nothing.
pub record Linked {F : Type 0} (f : DedupFilter F) : Type 0 where
  pub positive : 0 < f.max_size
  pub sized : f.lru_map.size ≡ length f.lru_list
  pub mapped : (u : Str) → f.lru_map.find u ≡ iterator_of u f.lru_list
  pub distinct : Distinct f.lru_list
  pub fresh : All (λ n. n.iterator < f.next_iterator) f.lru_list

module _ {F : Type 0} where
  -- What a round of the loop does to a filter that is not empty.
  pub record Dropped (f f' : DedupFilter F) : Type 0 where
    pub linked : Linked f'
    pub size : suc (length f'.lru_list) ≡ length f.lru_list
    pub uids : uids_of f'.lru_list ≡ take (length f'.lru_list) (uids_of f.lru_list)
    pub max_size : f'.max_size ≡ f.max_size
    pub bloom : f'.bloom ≡ f.bloom

  Dropped-by :
      (f : DedupFilter F) (rest : List Node) (oldest : Node)
      → Linked f
      → Shortened f.lru_list rest oldest
      → Dropped f (drop_oldest f)
  unfolding drop_oldest UnorderedMap.erase
  Dropped-by f rest oldest v s =
      rw (s.split, drop_oldest)
        (record {
          linked = record {
            positive = v.positive;
            sized = ground (arith, v.sized, s.size, v.mapped oldest.uid, s.listed);
            mapped = λ q. ground (arith, v.mapped q, s.gone q);
            distinct = s.distinct;
            fresh = s.all (λ n. n.iterator < f.next_iterator) v.fresh;
          };
          size = s.size;
          uids = s.uids;
          max_size = refl;
          bloom = refl;
        })

  drop_oldest-Dropped :
      (f : DedupFilter F) (l : List Node)
      → f.lru_list ≡ l
      → 0 < length l
      → Linked f
      → Dropped f (drop_oldest f)
  drop_oldest-Dropped f [] e h v = absurd (omega arith)
  drop_oldest-Dropped f (n ∷ l) e h v =
      let (rest, oldest, s) = split_last-Shortened n l (subst Distinct e v.distinct) in
      Dropped-by f rest oldest v (subst (λ k. Shortened k rest oldest) (sym e) s)

  -- The loop keeps the `max_size` most recent uids, and asks for a rebuild if it dropped any.
  pub record Evicted (f f' : DedupFilter F) : Type 0 where
    pub linked : Linked f'
    pub bounded : f'.lru_map.size ≤ f'.max_size
    pub uids : uids_of f'.lru_list ≡ take f.max_size (uids_of f.lru_list)
    pub max_size : f'.max_size ≡ f.max_size
    pub bloom : f'.bloom ≡ f.bloom

  stays : (f : DedupFilter F) → Linked f → f.lru_map.size ≤ f.max_size → Evicted f f
  stays f v h = record {
    linked = v;
    bounded = h;
    uids = sym (
        take_of_length-le f.max_size (uids_of f.lru_list)
          (omega (arith, length-map (λ (n : Node). n.uid) f.lru_list, v.sized)));
    max_size = refl;
    bloom = refl;
  }

  after_drop :
      (f g g' : DedupFilter F)
      → f.max_size < length f.lru_list
      → Dropped f g
      → Evicted g g'
      → Evicted f g'
  after_drop f g g' h s e = record {
    linked = e.linked;
    bounded = e.bounded;
    uids =
        e.uids
        ∙ ap (λ k. take k (uids_of g.lru_list)) s.max_size
        ∙ ap (take f.max_size) s.uids
        ∙ take-take f.max_size (length g.lru_list) (uids_of f.lru_list) (omega (arith, s.size));
    max_size = e.max_size ∙ s.max_size;
    bloom = e.bloom ∙ s.bloom;
  }

  -- With as much fuel as the map has entries, the loop ends with the `max_size` most recent uids, and
  -- asks for a rebuild exactly if there were more.
  pub evict_loop-Evicted :
      (fuel : ℕ) (f : DedupFilter F) (b : Bool)
      → Linked f
      → f.lru_map.size ≤ fuel
      → Evicted f (evict_loop fuel f b).0
        × ((evict_loop fuel f b).1 ≡ (if ltb f.max_size f.lru_map.size then true else b))
  unfolding evict_loop
  evict_loop-Evicted zero f b v h = (stays f v (omega arith), ground arith)
  evict_loop-Evicted (suc fuel) f b v h = elim (Bool-cases (ltb f.max_size f.lru_map.size)) [
    | inl over ↦
        let dropped = drop_oldest-Dropped f f.lru_list refl (ground (arith, v.sized)) v in
        let more =
          evict_loop-Evicted fuel (drop_oldest f) true dropped.linked
            (omega (arith, dropped.linked.sized, dropped.size, v.sized)) in
        rw (over, evict_loop)
          (
            after_drop f (drop_oldest f) _ (ground (arith, v.sized)) dropped more.0,
            ground (arith, more.1),
          )
    | inr fits ↦ rw (fits, evict_loop) (stays f v (ground arith), refl)
  ]
