-- ===== src/BufferShard/Entries.antt =====
-- Laws of the map `groups_` of server/buffer_shard.h.
use mathlib.Core.List.{Permᴰ}
use transfer_queue.Prelude.{
  ℕ, suc, ◌+◌, ◌≤◌, ◌≡◌, refl, ap, ◌∙◌, Bool-cases, Option-cases, inl, inr, [], ◌∷◌, Option, none,
  some, is_some, ite, Str, Str-discrete, length, if◌then◌else◌, arith,
}
use transfer_queue.BufferShard.Groups.{GroupEntry, GroupMap, find, erase, replace, store}

module _ {F : Type 0} where
  -- No key twice.
  abbrev pub Keyed : GroupMap F → Type 0
  Keyed [] = Unit {0}
  Keyed ((k, e) ∷ l) = (find k l ≡ none) × Keyed l

  pub find-replace :
      (id q : Str) (e : GroupEntry F) (l : GroupMap F)
      → find q (replace id e l)
        ≡ ite (Str-discrete q id) (if is_some (find id l) then some e else none) (find q l)
  unfolding find replace
  find-replace id q e [] = ground arith
  find-replace id q e ((k, x) ∷ l) = ground (arith, find-replace id q e l)

  pub find-erase :
      (id q : Str) (l : GroupMap F)
      → Keyed l
      → find q (erase id l) ≡ ite (Str-discrete q id) none (find q l)
  unfolding find erase
  find-erase id q [] h = ground arith
  find-erase id q ((k, x) ∷ l) h = ground (arith, find-erase id q l h.1)

  pub replace-Keyed :
      (id : Str) (e : GroupEntry F) (l : GroupMap F) → Keyed l → Keyed (replace id e l)
  unfolding replace
  replace-Keyed id e [] h = tt
  replace-Keyed id e ((k, x) ∷ l) h =
      ground (arith, find-replace id k e l, replace-Keyed id e l h.1)

  pub erase-Keyed : (id : Str) (l : GroupMap F) → Keyed l → Keyed (erase id l)
  unfolding erase
  erase-Keyed id [] h = tt
  erase-Keyed id ((k, x) ∷ l) h = ground (arith, find-erase id k l h.1, erase-Keyed id l h.1)

  -- Reordering changes no lookup.
  pub find-perm :
      {l m : GroupMap F} → Permᴰ l m → Keyed l → Keyed m × ((q : Str) → find q m ≡ find q l)
  unfolding find
  find-perm Permᴰ.nil h = (tt, λ q. refl)
  find-perm (Permᴰ.cons {a} {b} e p) h =
      let (keyed, same) = find-perm p h.1 in
      ((ground (arith, same b.0), keyed), λ q. ground (arith, same q))
  find-perm (Permᴰ.swap e e') h = (ground arith, λ q. ground arith)
  find-perm (Permᴰ.trans p p') h =
      let (keyed, same) = find-perm p h in
      let (keyed', same') = find-perm p' keyed in (keyed', λ q. same' q ∙ same q)

  -- A total over the entries.
  unfoldable pub sum_entries : (GroupEntry F → ℕ) → GroupMap F → ℕ
  sum_entries f [] = 0
  sum_entries f ((k, e) ∷ l) = f e + sum_entries f l

  pub sum_entries-perm :
      (f : GroupEntry F → ℕ) {l m : GroupMap F} → Permᴰ l m → sum_entries f m ≡ sum_entries f l
  unfolding sum_entries
  sum_entries-perm f Permᴰ.nil = refl
  sum_entries-perm f (Permᴰ.cons e p) = ground (arith, sum_entries-perm f p)
  sum_entries-perm f (Permᴰ.swap e e') = ground arith
  sum_entries-perm f (Permᴰ.trans p p') = sum_entries-perm f p' ∙ sum_entries-perm f p

  abbrev pub entry_total : (GroupEntry F → ℕ) → Option (GroupEntry F) → ℕ
  entry_total f none = 0
  entry_total f (some e) = f e

  pub sum_entries-replace :
      (f : GroupEntry F → ℕ) (id : Str) (e x : GroupEntry F) (l : GroupMap F)
      → find id l ≡ some x
      → sum_entries f (replace id e l) + f x ≡ sum_entries f l + f e
  unfolding sum_entries find replace
  sum_entries-replace f id e x [] h = absurd (ground arith)
  sum_entries-replace f id e x ((k, y) ∷ l) h = ground (arith, sum_entries-replace f id e x l)

  length-replace :
      (id : Str) (e : GroupEntry F) (l : GroupMap F) → length (replace id e l) ≡ length l
  unfolding replace
  length-replace id e [] = refl
  length-replace id e ((k, x) ∷ l) = ground (arith, length-replace id e l)

  length-perm : {l m : GroupMap F} → Permᴰ l m → length m ≡ length l
  length-perm Permᴰ.nil = refl
  length-perm (Permᴰ.cons e p) = ap suc (length-perm p)
  length-perm (Permᴰ.swap e e') = refl
  length-perm (Permᴰ.trans p p') = length-perm p' ∙ length-perm p

  -- A reordering, as a hash table may make one when a key is added.
  abbrev pub IsReordering : (GroupMap F → GroupMap F) → Type 0
  IsReordering arrange = (l : GroupMap F) → Permᴰ l (arrange l)

  module _ (arrange : GroupMap F → GroupMap F) (reorders : IsReordering arrange) where
    store_new :
        (id : Str) (e : GroupEntry F) (l : GroupMap F)
        → find id l ≡ none
        → Keyed l
        → Keyed (arrange ((id, e) ∷ l))
          × ((q : Str)
              → find q (arrange ((id, e) ∷ l)) ≡ ite (Str-discrete q id) (some e) (find q l))
    unfolding find
    store_new id e l absent h = find-perm (reorders ((id, e) ∷ l)) (absent, h)

    -- `m[id] = e` sets that key, and no other.
    pub find-store :
        (id : Str) (e : GroupEntry F) (l : GroupMap F)
        → Keyed l
        → Keyed (store arrange id e l)
          × ((q : Str)
              → find q (store arrange id e l) ≡ ite (Str-discrete q id) (some e) (find q l))
    unfolding store
    find-store id e l h = elim (Bool-cases (is_some (find id l))) [
      | inl old ↦ rw old (replace-Keyed id e l h, λ q. find-replace id q e l ∙ ground (arith, old))
      | inr new ↦ rw new (store_new id e l (ground arith) h)
    ]

    pub sum_entries-store :
        (f : GroupEntry F → ℕ) (id : Str) (e : GroupEntry F) (l : GroupMap F)
        → sum_entries f (store arrange id e l) + entry_total f (find id l) ≡ sum_entries f l + f e
    unfolding store sum_entries
    sum_entries-store f id e l = elim (Option-cases (find id l)) [
      | inl new ↦ rw (new, store) (omega (arith, sum_entries-perm f (reorders ((id, e) ∷ l))))
      | inr (x, old) ↦ rw (old, store) (sum_entries-replace f id e x l old)
    ]

    pub length-store-le :
        (id : Str) (e : GroupEntry F) (l : GroupMap F)
        → length (store arrange id e l) ≤ suc (length l)
    unfolding store
    length-store-le id e l =
        ground (arith, length-replace id e l, length-perm (reorders ((id, e) ∷ l)))
