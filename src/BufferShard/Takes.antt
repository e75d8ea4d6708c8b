-- ===== src/BufferShard/Takes.antt =====
-- What a read of server/buffer_shard.cc takes from one instance.
use transfer_queue.Prelude.{
  ◌≡◌, ◌≢◌, refl, sym, ap, ◌∙◌, true, false, Bool-cases, inl, inr, List, [], ◌∷◌, ◌++◌, none, some,
  if_pos, if_neg, Str, Str-discrete, arith,
}
use transfer_queue.Platform.Runtime.{Runtime, View}
use transfer_queue.Proto.{TrajectoryGroup}
use transfer_queue.DiskStorage.{DiskStorage, Env}
use transfer_queue.BufferShard.Groups.{GroupEntry, GroupMap, find, is_complete, is_on_disk}
use transfer_queue.BufferShard.Entries.{Keyed}
use transfer_queue.BufferShard.Consume.{ready_of}
use transfer_queue.BufferShard.Ready.{disk_entry, memory_entry}
use transfer_queue.BufferShard.Contract.{Groups, of_instance}
use transfer_queue.BufferShard.Filed.{Filed, AllFiled, disk_groups}

module _ {F : Type 0} where
  of_instance-here :
      (q : Str) (g : TrajectoryGroup F) (gs : List (TrajectoryGroup F))
      → g.instance_id ≡ q
      → of_instance q (g ∷ gs) ≡ g ∷ of_instance q gs
  unfolding of_instance
  of_instance-here q g gs h = if_pos (Str-discrete q g.instance_id) (sym h) _ _

  of_instance-other :
      (q k : Str) (g : TrajectoryGroup F) (gs : List (TrajectoryGroup F))
      → g.instance_id ≡ k
      → q ≢ k
      → of_instance q (g ∷ gs) ≡ of_instance q gs
  unfolding of_instance
  of_instance-other q k g gs h n = if_neg (Str-discrete q g.instance_id) (λ p. n (p ∙ h)) _ _

  pub of_instance-append :
      (q : Str) (l m : List (TrajectoryGroup F))
      → of_instance q (l ++ m) ≡ of_instance q l ++ of_instance q m
  unfolding of_instance
  of_instance-append q [] m = refl
  of_instance-append q (g ∷ l) m = elim (Str-discrete q g.instance_id) [
    | yes p ↦
        rw (if_pos (Str-discrete q g.instance_id) p, if_pos (Str-discrete q g.instance_id) p)
          (ap (◌∷◌ g) (of_instance-append q l m))
    | no p ↦
        rw (if_neg (Str-discrete q g.instance_id) p, if_neg (Str-discrete q g.instance_id) p)
          (of_instance-append q l m)
  ]

module _ {W H F : Type 0} (rt : Runtime W H F) (v : View W H) (d : DiskStorage) (env : Env W)
    (view : Groups F) (q : Str) where
  -- Where the group of an instance is, and which of the lists it is in.
  pub data Found (l : GroupMap F) (h : AllFiled rt v d env view l) : Type 0 where
    nowhere :
        find q l ≡ none
        → of_instance q (ready_of l) ≡ []
        → of_instance q (disk_groups rt v d env view l h) ≡ []
        → Found l h
    waits :
        (e : GroupEntry F) (g : TrajectoryGroup F)
        → find q l ≡ some e
        → is_complete e ≡ false
        → e.group_ptr ≡ some g
        → of_instance q (ready_of l) ≡ []
        → of_instance q (disk_groups rt v d env view l h) ≡ []
        → Found l h
    in_memory :
        (e : GroupEntry F) (g : TrajectoryGroup F)
        → find q l ≡ some e
        → is_complete e ≡ true
        → view q ≡ some g
        → g.is_complete ≡ true
        → of_instance q (ready_of l) ≡ g ∷ []
        → of_instance q (disk_groups rt v d env view l h) ≡ []
        → Found l h
    on_disk :
        (e : GroupEntry F) (g : TrajectoryGroup F)
        → find q l ≡ some e
        → is_complete e ≡ true
        → view q ≡ some g
        → g.is_complete ≡ true
        → of_instance q (ready_of l) ≡ []
        → of_instance q (disk_groups rt v d env view l h) ≡ g ∷ []
        → Found l h

  -- An entry of another key is in neither list.
  ready-other :
      (k : Str) (e : GroupEntry F) (l : GroupMap F)
      → Filed rt v d env view k e
      → q ≢ k
      → of_instance q (ready_of ((k, e) ∷ l)) ≡ of_instance q (ready_of l)
  unfolding ready_of
  ready-other k e l f n = elim f.keeps [
    | inr s ↦ rw (s.0.pointer) refl
    | inl m ↦ elim (Bool-cases f.group.is_complete) [
      | inl done ↦
          ap (of_instance q) (ground (arith, m, done))
          ∙ of_instance-other q k f.group (ready_of l) f.named n
      | inr more ↦ ap (of_instance q) (ground (arith, m, more))
    ]
  ]

  disk-other :
      (k : Str) (e : GroupEntry F) (l : GroupMap F) (h : AllFiled rt v d env view ((k, e) ∷ l))
      → q ≢ k
      → of_instance q (disk_groups rt v d env view ((k, e) ∷ l) h)
        ≡ of_instance q (disk_groups rt v d env view l h.1)
  unfolding disk_groups
  disk-other k e l h n = elim (Bool-cases (is_on_disk e)) [
    | inl on ↦ rw on (of_instance-other q k h.0.group _ h.0.named n)
    | inr off ↦ rw off refl
  ]

  find-other :
      (k : Str) (e : GroupEntry F) (l : GroupMap F) → q ≢ k → find q ((k, e) ∷ l) ≡ find q l
  unfolding find
  find-other k e l n = if_neg (Str-discrete q k) n _ _

  Found-cons :
      (k : Str) (e : GroupEntry F) (l : GroupMap F) (h : AllFiled rt v d env view ((k, e) ∷ l))
      → q ≢ k
      → Found l h.1
      → Found ((k, e) ∷ l) h
  Found-cons k e l h n (nowhere a b c) =
      nowhere (find-other k e l n ∙ a) (ready-other k e l h.0 n ∙ b) (disk-other k e l h n ∙ c)
  Found-cons k e l h n (waits x g a w p b c) =
      waits x g (find-other k e l n ∙ a) w p (ready-other k e l h.0 n ∙ b)
        (disk-other k e l h n ∙ c)
  Found-cons k e l h n (in_memory x g a w s f b c) =
      in_memory x g (find-other k e l n ∙ a) w s f (ready-other k e l h.0 n ∙ b)
        (disk-other k e l h n ∙ c)
  Found-cons k e l h n (on_disk x g a w s f b c) =
      on_disk x g (find-other k e l n ∙ a) w s f (ready-other k e l h.0 n ∙ b)
        (disk-other k e l h n ∙ c)

  absent_lem :
      (l : GroupMap F) (h : AllFiled rt v d env view l)
      → find q l ≡ none
      → (of_instance q (ready_of l) ≡ []) × (of_instance q (disk_groups rt v d env view l h) ≡ [])
  unfolding ready_of disk_groups of_instance find
  absent_lem [] h a = (refl, refl)
  absent_lem ((k, e) ∷ l) h a =
      let n : q ≢ k = λ p. absurd (ground (arith, p, a)) in
      let (b, c) = absent_lem l h.1 (sym (find-other k e l n) ∙ a) in
      (ready-other k e l h.0 n ∙ b, disk-other k e l h n ∙ c)

  Found-here :
      (k : Str) (e : GroupEntry F) (l : GroupMap F) (h : AllFiled rt v d env view ((k, e) ∷ l))
      → q ≡ k
      → find k l ≡ none
      → Found ((k, e) ∷ l) h
  unfolding find ready_of disk_groups is_complete
  Found-here k e l h p a =
      let (b, c) = absent_lem l h.1 (ap (λ x. find x l) p ∙ a) in
      let f = h.0 in
      let there = if_pos (Str-discrete q k) p (some e) (find q l) in
      let here = ap view p ∙ f.here in
      let named = f.named ∙ sym p in
      elim f.keeps [
        | inr s ↦
            let disk = disk_entry rt v d env e f.group s.0 in
            on_disk e f.group there (rw (s.0.pointer) refl) here s.0.complete (rw (s.0.pointer) b)
              (rw (disk) (of_instance-here q f.group _ named ∙ ap (◌∷◌ f.group) c))
        | inl m ↦
            let off = memory_entry rt v d env e f.group m in
            elim (Bool-cases f.group.is_complete) [
              | inl done ↦
                  in_memory e f.group there (rw (m, done) refl) here done
                    (ap (of_instance q) (ground (arith, m, done))
                      ∙ of_instance-here q f.group (ready_of l) named
                      ∙ ap (◌∷◌ f.group) b)
                    (rw (off) c)
              | inr more ↦
                  waits e f.group there (rw (m, more) refl) m
                    (ap (of_instance q) (ground (arith, m, more)) ∙ b) (rw (off) c)
            ]
      ]

  pub Found-lem : (l : GroupMap F) → Keyed l → (h : AllFiled rt v d env view l) → Found l h
  unfolding find ready_of disk_groups of_instance
  Found-lem [] keyed h = nowhere refl refl refl
  Found-lem ((k, e) ∷ l) keyed h = elim (Str-discrete q k) [
    | no n ↦ Found-cons k e l h n (Found-lem l keyed.1 h.1)
    | yes p ↦ Found-here k e l h p keyed.0
  ]
