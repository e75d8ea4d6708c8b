-- ===== src/BufferShard/Reads.antt =====
-- A read of server/buffer_shard.cc with any limit is a step of the contract.
use transfer_queue.Prelude.{
  some_injective, ◌+◌, ◌≤◌, ◌≡◌, refl, sym, ap, subst, ◌∙◌, true, false, Bool-cases, Option-cases,
  inl, inr, List, [], ◌++◌, none, some, Str, length, length-append, arith,
}
use transfer_queue.Prelude.Int.{ℤ, pos, negsuc}
use transfer_queue.Action.{Result, ok}
use transfer_queue.Platform.Runtime.{Runtime, View, IsCodec, IsReliable}
use transfer_queue.Proto.{TrajectoryGroup}
use transfer_queue.DedupFilter.Refines.{IsValid}
use transfer_queue.DiskStorage.Batch.{Framed}
use transfer_queue.DiskStorage.Loads.{Misses-outside}
use transfer_queue.BufferShard.{Core}
use transfer_queue.BufferShard.Groups.{GroupMap, find, is_complete}
use transfer_queue.BufferShard.Entries.{Keyed}
use transfer_queue.BufferShard.Represents.{Matches}
use transfer_queue.BufferShard.Manage.{disk_offsets}
use transfer_queue.BufferShard.Consume.{ready_of, waiting}
use transfer_queue.BufferShard.Contract.{Groups, Step, Within, read, take_ready, ready}
use transfer_queue.BufferShard.Filed.{
  AllFiled, disk_groups, All-append, find-All, AllFiled-IsPlaced, AllFiled-AllLoadable,
  AllFiled-Distinct,
}
use transfer_queue.BufferShard.Takes.{Found-lem}
use transfer_queue.BufferShard.Parts.{
  find-append, find-waiting, waiting-Keyed, append-Keyed, Keyed-append, Apart,
}
use transfer_queue.BufferShard.Prefix.{gathered, scan-Scanned, IsFullScan}
use transfer_queue.BufferShard.Overlap.{start_of}
use transfer_queue.BufferShard.Limit.{Ensures, length-read_ready_groups-le}
use transfer_queue.BufferShard.Scans.{read_first}
use transfer_queue.BufferShard.Sound.{Sound, Sound-AllFiled}
use transfer_queue.BufferShard.Read.{reached, read_ready_groups, count_trajectories}
use transfer_queue.BufferShard.ReadStep.{
  view_after, after_read-some, length-AllLoadable, returned_groups, Found-Takes, parts-Matches,
}

module _ {W H F : Type 0} (rt : Runtime W H F) (v : View W H) (codec : IsCodec rt)
    (reliable : IsReliable rt v) where
  -- A read that is a step of the contract, and what it counts.
  pub record ReadDone (size n : ℤ) (core : Core W F) (view : Groups F)
      (r : Result (List (TrajectoryGroup F)) × Core W F) : Type 0 where
    pub groups : List (TrajectoryGroup F)
    pub after : Groups F
    pub returned : r.0 ≡ ok groups
    pub step : Step size view after (take_ready n) (ready groups)
    pub sound : Sound rt v r.1 after
    pub filter : r.1.shard.dedup_filter ≡ core.shard.dedup_filter
    pub storage : r.1.shard.disk_storage ≡ core.shard.disk_storage
    pub framed : Framed rt v core.shard.disk_storage core.env r.1.env
    pub total : r.1.shard.total_trajectories ≡ core.shard.total_trajectories
    pub consumed : r.1.shard.total_consumed ≡ core.shard.total_consumed + count_trajectories groups

  -- Below the limit no complete group is left.
  none_left :
      (n : ℤ) (core : Core W F) (view : Groups F)
      → Sound rt v core view
      → (first rest : GroupMap F) → core.shard.groups ≡ first ++ rest
      → rest ≡ []
      → AllFiled rt v core.shard.disk_storage core.env view first
      → (q : Str) (g : TrajectoryGroup F) → view_after first view q ≡ some g
      → g.is_complete ≡ false
  unfolding is_complete find
  none_left n core view s first rest parts all filed q g h = elim (Option-cases (find q first)) [
    | inl a ↦
        let gone : find q core.shard.groups ≡ none =
          ap (find q) parts ∙ find-append q first rest ∙ rw (a, all) refl in
        let m =
          subst (λ o. Matches rt v core.shard.disk_storage core.env o (view q)) gone
            (s.represents.matches q) in
        absurd (
          subst (Matches rt v core.shard.disk_storage core.env none)
            (after_read-some (find q first) (view q) g h) m)
    | inr (e, a) ↦
        let f = find-All _ q e first filed a in
        let here : view q ≡ some g = after_read-some (find q first) (view q) g h in
        let one : f.group ≡ g = some_injective (sym f.here ∙ here) in
        elim f.keeps [
          | inl m ↦ elim (Bool-cases g.is_complete) [
            | inr more ↦ more
            | inl done ↦
                let full : is_complete e ≡ true = rw (m, one) done in
                absurd (ground (arith, h, a, full))
          ]
          | inr s ↦ absurd (ground (arith, h, a, s.0.pointer))
        ]
  ]

  -- A limit that stopped the scan is that of the groups returned.
  full_limit :
      (n : ℤ) (core : Core W F) (view : Groups F) (first : GroupMap F)
      (filed : AllFiled rt v core.shard.disk_storage core.env view first)
      → IsFullScan n (gathered first (start_of rt core))
      → reached n (length (returned_groups rt v core.shard.disk_storage view core.env first filed))
        ≡ true
  full_limit n core view first filed h =
      let d = core.shard.disk_storage in
      let gs = disk_groups rt v d core.env view first filed in
      let counted : length (ready_of first) + length (disk_offsets first)
          ≡ length (ready_of first ++ gs) =
        omega (
          arith,
          length-append (ready_of first) gs,
          length-AllLoadable rt v d core.env.world (disk_offsets first) gs
              (AllFiled-AllLoadable rt v d core.env view first filed),
        ) in
      subst (λ k. reached n k ≡ true) counted h

  waiting-Apart :
      (first rest : GroupMap F) → Keyed first → Apart first rest → Apart (waiting first) rest
  waiting-Apart first rest keyed away q e h = elim (Option-cases (find q first)) [
    | inl a ↦ absurd (ground (arith, h, find-waiting q first keyed, a))
    | inr (x, a) ↦ away q x a
  ]

  read-Within :
      (n : ℤ) (core : Core W F) (gs : List (TrajectoryGroup F))
      → (read_ready_groups rt n core).0 ≡ ok gs
      → Within n (length gs)
  read-Within (pos m) core gs h =
      λ p b. subst (Ensures (λ l. length l ≤ m)) h (length-read_ready_groups-le rt m core p b)
  read-Within (negsuc m) core gs h = tt

  -- On a machine where no file operation fails, a read with any limit takes complete groups, each
  -- once and at most as many as the limit, keeps every other group, and leaves complete ones only at
  -- that limit.
  pub read-ReadDone :
      (size n : ℤ) (core : Core W F) (view : Groups F)
      → Sound rt v core view
      → ReadDone size n core view (read_ready_groups rt n core)
  read-ReadDone size n core view s =
      let d = core.shard.disk_storage in
      let all = Sound-AllFiled rt v core view s in
      let sc =
        scan-Scanned n core.shard.groups (start_of rt core)
          (AllFiled-IsPlaced rt v d core.env view core.shard.groups all) in
      let (filed, restf) =
        All-append _ sc.first sc.rest (subst (AllFiled rt v d core.env view) sc.parts all) in
      let (keyed, keyed_rest, away) =
        append-Keyed sc.first sc.rest (subst Keyed sc.parts s.represents.keyed) in
      let took =
        read_first rt v codec reliable n core sc.first sc.rest
          (disk_groups rt v d core.env view sc.first filed) s.initialized keyed
          (AllFiled-Distinct rt v d core.env view codec reliable s.initialized sc.first keyed filed)
          (AllFiled-AllLoadable rt v d core.env view sc.first filed) sc.returned in
      let after = view_after sc.first view in
      let final = (read_ready_groups rt n core).1 in
      let kept : (q : Str) (g : TrajectoryGroup F) → after q ≡ some g → view q ≡ some g =
        λ q g h. after_read-some (find q sc.first) (view q) g h in
      record {
        groups = returned_groups rt v d view core.env sc.first filed;
        after = after;
        returned = took.returned;
        step =
            read n _
              (λ q.
                Found-Takes rt v d view core.env sc.first filed q
                  (Found-lem rt v d core.env view q sc.first keyed filed))
              (read-Within n core _ took.returned)
              (elim sc.limit [
                | inl whole ↦ inr (none_left n core view s sc.first sc.rest sc.parts whole filed)
                | inr full ↦ inl (full_limit n core view sc.first filed full)
              ]);
        sound = record {
          initialized = ap (λ x. x.initialized) took.storage ∙ s.initialized;
          valid = subst (IsValid rt.hash) (sym took.filter) s.valid;
          represents = record {
            keyed = subst Keyed (sym took.groups) (
                Keyed-append (waiting sc.first) sc.rest (waiting-Keyed sc.first keyed) keyed_rest
                  (waiting-Apart sc.first sc.rest keyed away));
            matches = λ q.
                subst (λ x. Matches rt v x final.env (find q final.shard.groups) (after q))
                  (sym took.storage)
                  (subst (λ m. Matches rt v d final.env (find q m) (after q)) (sym took.groups)
                    (parts-Matches rt v d view core.env sc.first filed codec reliable s.initialized
                      final.env took.same took.grows sc.rest keyed away restf
                      (λ k.
                        subst (λ m. Matches rt v d core.env (find k m) (view k)) sc.parts
                          (s.represents.matches k))
                      q));
          };
          named = λ q g h. s.named q g (kept q g h);
          fits = λ q g h. s.fits q g (kept q g h);
        };
        filter = took.filter;
        storage = took.storage;
        framed = record {
          elsewhere = λ q h. took.same q (Misses-outside rt v d q (disk_offsets sc.first) h);
          grows = took.grows;
        };
        total = took.total;
        consumed = took.consumed;
      }
