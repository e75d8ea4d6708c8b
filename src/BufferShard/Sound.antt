-- ===== src/BufferShard/Sound.antt =====
-- A shard of server/buffer_shard.cc that keeps some groups, on a machine where no operation fails.
use transfer_queue.Prelude.{
  ◌≡◌, refl, subst, true, inl, inr, Option, none, some, Str, length, arith, ◌≤◌,
}
use transfer_queue.Platform.Runtime.{Runtime, View}
use transfer_queue.Proto.{TrajectoryGroup}
use transfer_queue.DedupFilter.Refines.{IsValid}
use transfer_queue.DiskStorage.{DiskStorage, Env, max_group_bytes}
use transfer_queue.BufferShard.{Core}
use transfer_queue.BufferShard.Groups.{GroupEntry}
use transfer_queue.BufferShard.Represents.{Stands, Matches, Represents}
use transfer_queue.BufferShard.Ready.{Keeps}
use transfer_queue.BufferShard.Contract.{Groups}
use transfer_queue.BufferShard.Filed.{Fit, Filed, AllFiled, All-find}

module _ {W H F : Type 0} (rt : Runtime W H F) (v : View W H) where
  -- The shard keeps these groups, each under its name and each small enough to be read from disk.
  pub record Sound (core : Core W F) (view : Groups F) : Type 0 where
    pub initialized : core.shard.disk_storage.initialized ≡ true
    pub valid : IsValid rt.hash core.shard.dedup_filter
    pub represents : Represents rt v core view
    pub named : (q : Str) (g : TrajectoryGroup F) → view q ≡ some g → g.instance_id ≡ q
    pub fits : (q : Str) (g : TrajectoryGroup F) → view q ≡ some g → Fit rt v g

  Stands-Keeps :
      (d : DiskStorage) (env : Env W) (e : GroupEntry F) (g : TrajectoryGroup F)
      → Fit rt v g
      → Stands rt v d env e g
      → Keeps rt v d env e g
  Stands-Keeps d env e g f (inl m) = inl m
  Stands-Keeps d env e g (s, wrote, short) (inr x) =
      let same : s ≡ x.disk.body = ground (arith, wrote, x.disk.serialized) in
      inr (x, subst (λ y. length y ≤ max_group_bytes) same short)

  Matches-Filed :
      (d : DiskStorage) (env : Env W) (view : Groups F) (q : Str) (e : GroupEntry F)
      (o : Option (TrajectoryGroup F))
      → view q ≡ o
      → ((g : TrajectoryGroup F) → o ≡ some g → (g.instance_id ≡ q) × Fit rt v g)
      → Matches rt v d env (some e) o
      → Filed rt v d env view q e
  Matches-Filed d env view q e none h f m = absurd m
  Matches-Filed d env view q e (some g) h f m = record {
    group = g;
    here = h;
    named = (f g refl).0;
    keeps = Stands-Keeps d env e g (f g refl).1 m;
  }

  pub Sound-AllFiled :
      (core : Core W F) (view : Groups F)
      → Sound core view
      → AllFiled rt v core.shard.disk_storage core.env view core.shard.groups
  Sound-AllFiled core view s = All-find _ core.shard.groups s.represents.keyed (λ q e there.
      Matches-Filed core.shard.disk_storage core.env view q e (view q) refl
        (λ g h. (s.named q g h, s.fits q g h))
        (subst (λ o. Matches rt v core.shard.disk_storage core.env o (view q)) there
          (s.represents.matches q)))
