-- ===== src/BufferShard/Parts.antt =====
-- The map `groups_` of server/buffer_shard.h in two parts, of which a read has gone through the first.
use transfer_queue.Prelude.{
  ◌≡◌, refl, sym, ◌∙◌, [], ◌∷◌, ◌++◌, Option, none, some, if_pos, if_neg, Str, Str-discrete,
  if◌then◌else◌, arith,
}
use transfer_queue.BufferShard.Groups.{GroupEntry, GroupMap, find, is_complete}
use transfer_queue.BufferShard.Entries.{Keyed}
use transfer_queue.BufferShard.Consume.{waiting}

module _ {F : Type 0} where
  abbrev pub or_else : Option (GroupEntry F) → Option (GroupEntry F) → Option (GroupEntry F)
  or_else none o = o
  or_else (some e) o = some e

  abbrev pub if_waiting : Option (GroupEntry F) → Option (GroupEntry F)
  if_waiting none = none
  if_waiting (some e) = if is_complete e then none else some e

  pub find-append : (q : Str) (l m : GroupMap F) → find q (l ++ m) ≡ or_else (find q l) (find q m)
  unfolding find
  find-append q [] m = refl
  find-append q ((k, e) ∷ l) m = ground (arith, find-append q l m)

  pub find-waiting :
      (q : Str) (l : GroupMap F) → Keyed l → find q (waiting l) ≡ if_waiting (find q l)
  unfolding find waiting
  find-waiting q [] h = refl
  find-waiting q ((k, e) ∷ l) h = ground (arith, find-waiting q l h.1, h.0)

  pub waiting-Keyed : (l : GroupMap F) → Keyed l → Keyed (waiting l)
  unfolding waiting
  waiting-Keyed [] h = tt
  waiting-Keyed ((k, e) ∷ l) h = ground (arith, waiting-Keyed l h.1, find-waiting k l h.1, h.0)

  -- No key is in both parts.
  abbrev pub Apart : GroupMap F → GroupMap F → Type 0
  Apart l m = (q : Str) (e : GroupEntry F) → find q l ≡ some e → find q m ≡ none

  pub append-Keyed : (l m : GroupMap F) → Keyed (l ++ m) → Keyed l × Keyed m × Apart l m
  unfolding find
  append-Keyed [] m h = (tt, h, λ q e p. absurd (ground (arith, p)))
  append-Keyed ((k, e) ∷ l) m h =
      let (kl, km, apart) = append-Keyed l m h.1 in
      let split : or_else (find k l) (find k m) ≡ none = sym (find-append k l m) ∙ h.0 in
      (
        (ground (arith, split), kl),
        km,
        λ q x p. elim (Str-discrete q k) [
          | yes same ↦ ground (arith, same, split)
          | no other ↦ apart q x (sym (if_neg (Str-discrete q k) other _ _) ∙ p)
        ],
      )

  pub Keyed-append : (l m : GroupMap F) → Keyed l → Keyed m → Apart l m → Keyed (l ++ m)
  unfolding find
  Keyed-append [] m h hm a = hm
  Keyed-append ((k, e) ∷ l) m h hm a = (
    find-append k l m ∙ rw (h.0) (a k e (if_pos (Str-discrete k k) refl _ _)),
    Keyed-append l m h.1 hm (λ q x p. a q x (ground (arith, p, h.0))),
  )
