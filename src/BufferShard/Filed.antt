-- ===== src/BufferShard/Filed.antt =====
-- The groups of a shard of server/buffer_shard.cc entry by entry: where each is, and why the files
-- of two of them are different.
use transfer_queue.Prelude.{
  ◌≤◌, ◌≡◌, ◌≢◌, refl, sym, ap, subst, ◌∙◌, true, Bool-cases, inl, inr, List, [], ◌∷◌, ◌++◌, none,
  some, if_pos, if_neg, Str, Str-discrete, length, All, if◌then◌else◌, arith,
}
use transfer_queue.Action.{ok}
use transfer_queue.Platform.Runtime.{Runtime, View, IsCodec, IsReliable}
use transfer_queue.Proto.{TrajectoryGroup}
use transfer_queue.DiskStorage.{DiskStorage, Env, max_group_bytes, load}
use transfer_queue.DiskStorage.Loads.{IsLoadable, AllLoadable, Distinct, load-IsLoadable}
use transfer_queue.BufferShard.Groups.{GroupEntry, GroupMap, find, is_on_disk}
use transfer_queue.BufferShard.Entries.{Keyed}
use transfer_queue.BufferShard.Manage.{disk_offsets}
use transfer_queue.BufferShard.Drain.{IsPlaced}
use transfer_queue.BufferShard.Ready.{Keeps, disk_entry, memory_entry}
use transfer_queue.BufferShard.Contract.{Groups}

ok_injective : {A : Type 0} {a b : A} → ok a ≡ ok b → a ≡ b
ok_injective e = cc

module _ {F : Type 0} (P : Str × GroupEntry F → Type 0) where
  pub All-find :
      (l : GroupMap F)
      → Keyed l
      → ((q : Str) (e : GroupEntry F) → find q l ≡ some e → P (q, e))
      → All P l
  unfolding find
  All-find [] h f = tt
  All-find ((k, e) ∷ l) h f = (
    f k e (if_pos (Str-discrete k k) refl _ _),
    All-find l h.1 (λ q x there. f q x (
        if_neg (Str-discrete q k)
          (λ same. absurd (ground (arith, there, h.0, ap (λ y. find y l) same))) _ _
        ∙ there)),
  )

  pub All-append : (l m : GroupMap F) → All P (l ++ m) → All P l × All P m
  All-append [] m h = (tt, h)
  All-append (x ∷ l) m h = let (hl, hm) = All-append l m h.1 in ((h.0, hl), hm)

  pub find-All :
      (q : Str) (e : GroupEntry F) (l : GroupMap F) → All P l → find q l ≡ some e → P (q, e)
  unfolding find
  find-All q e [] h there = absurd (ground (arith, there))
  find-All q e ((k, x) ∷ l) h there = elim (Str-discrete q k) [
    | yes p ↦
        let same : x ≡ e = ground (arith, p, there) in
        subst (λ y. P (y, e)) (sym p) (subst (λ y. P (k, y)) same h.0)
    | no p ↦ find-All q e l h.1 (ground (arith, p, there))
  ]

module _ {W H F : Type 0} (rt : Runtime W H F) (v : View W H) where
  -- A group that is serialised to at most what `load` accepts.
  abbrev pub Fit : TrajectoryGroup F → Type 0
  Fit g = (s : Str) × (rt.serialize g ≡ some s) × (length s ≤ max_group_bytes)

module _ {W H F : Type 0} (rt : Runtime W H F) (v : View W H) (d : DiskStorage) (env : Env W)
    (view : Groups F) where
  -- An entry that has its group, under its name.
  pub record Filed (k : Str) (e : GroupEntry F) : Type 0 where
    pub group : TrajectoryGroup F
    pub here : view k ≡ some group
    pub named : group.instance_id ≡ k
    pub keeps : Keeps rt v d env e group

  abbrev pub AllFiled : GroupMap F → Type 0
  AllFiled l = All (λ x. Filed x.0 x.1) l

  -- The groups of the entries on disk.
  unfoldable pub disk_groups : (l : GroupMap F) → AllFiled l → List (TrajectoryGroup F)
  disk_groups [] h = []
  disk_groups ((k, e) ∷ l) h =
      if is_on_disk e then h.0.group ∷ disk_groups l h.1 else disk_groups l h.1

  Filed-IsPlaced : (k : Str) (e : GroupEntry F) → Filed k e → IsPlaced e
  Filed-IsPlaced k e f = elim f.keeps [
    | inl m ↦ inl (f.group, m)
    | inr s ↦ inr (s.0.pointer, disk_entry rt v d env e f.group s.0)
  ]

  pub AllFiled-IsPlaced : (l : GroupMap F) → AllFiled l → All (λ x. IsPlaced x.1) l
  AllFiled-IsPlaced [] h = tt
  AllFiled-IsPlaced ((k, e) ∷ l) h = (Filed-IsPlaced k e h.0, AllFiled-IsPlaced l h.1)

  pub Filed-IsLoadable :
      (k : Str) (e : GroupEntry F) (f : Filed k e)
      → is_on_disk e ≡ true
      → IsLoadable rt v d env.world e.disk_offset f.group
  Filed-IsLoadable k e f on = elim f.keeps [
    | inl m ↦ absurd (ground (arith, on, memory_entry rt v d env e f.group m))
    | inr s ↦ record { stored = s.0.disk; small = s.1 }
  ]

  pub AllFiled-AllLoadable :
      (l : GroupMap F) (h : AllFiled l)
      → AllLoadable rt v d env.world (disk_offsets l) (disk_groups l h)
  unfolding disk_offsets disk_groups
  AllFiled-AllLoadable [] h = tt
  AllFiled-AllLoadable ((k, e) ∷ l) h = elim (Bool-cases (is_on_disk e)) [
    | inl on ↦ rw on (Filed-IsLoadable k e h.0 on, AllFiled-AllLoadable l h.1)
    | inr off ↦ rw off (AllFiled-AllLoadable l h.1)
  ]

  module _ (codec : IsCodec rt) (reliable : IsReliable rt v) (on : d.initialized ≡ true) where
    -- Two entries of one file have the same group, so they have the same key.
    pub same_file :
        (j k : Str) (e x : GroupEntry F)
        → Filed j e
        → Filed k x
        → is_on_disk e ≡ true
        → is_on_disk x ≡ true
        → e.disk_offset ≡ x.disk_offset
        → j ≡ k
    same_file j k e x f g he hx same =
        let (a, _) =
          load-IsLoadable rt v d codec reliable on e.disk_offset f.group env.world
            (Filed-IsLoadable j e f he) in
        let (b, _) =
          load-IsLoadable rt v d codec reliable on x.disk_offset g.group env.world
            (Filed-IsLoadable k x g hx) in
        let one : f.group ≡ g.group =
          ok_injective (sym a ∙ ap (λ o. (load rt d o env.world).0) same ∙ b) in
        sym f.named ∙ ap (λ y. y.instance_id) one ∙ g.named

    pub apart :
        (j : Str) (e : GroupEntry F) (l : GroupMap F)
        → Filed j e
        → is_on_disk e ≡ true
        → AllFiled l
        → find j l ≡ none
        → All (λ o. o ≢ e.disk_offset) (disk_offsets l)
    unfolding disk_offsets find
    apart j e [] f he h none_there = tt
    apart j e ((k, x) ∷ l) f he h none_there =
        let rest : find j l ≡ none = ground (arith, none_there) in
        elim (Bool-cases (is_on_disk x)) [
          | inl hx ↦ rw hx (
            λ eq.
                let p = same_file j k e x f h.0 he hx (sym eq) in
                absurd (ground (arith, p, none_there)),
            apart j e l f he h.1 rest,
          )
          | inr off ↦ rw off (apart j e l f he h.1 rest)
        ]

    pub AllFiled-Distinct :
        (l : GroupMap F) → Keyed l → AllFiled l → Distinct rt v d (disk_offsets l)
    unfolding disk_offsets
    AllFiled-Distinct [] keyed h = tt
    AllFiled-Distinct ((k, e) ∷ l) keyed h = elim (Bool-cases (is_on_disk e)) [
      | inl there ↦ rw there (apart k e l h.0 there h.1 keyed.0, AllFiled-Distinct l keyed.1 h.1)
      | inr off ↦ rw off (AllFiled-Distinct l keyed.1 h.1)
    ]
