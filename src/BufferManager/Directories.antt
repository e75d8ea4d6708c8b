-- ===== src/BufferManager/Directories.antt =====
-- The directories of the shards that `start` of server/buffer_manager.cc builds have no file in
-- common.
use mathlib.Core.List.{append_assoc, append_cancel_left}
use transfer_queue.Prelude.{
  ℕ, zero, suc, ◌<◌, ◌≡◌, ◌≢◌, refl, sym, ap, ◌∙◌, true, [], ◌∷◌, ◌++◌, All, Str, map, drop, arith,
}
use transfer_queue.Config.{TransferQueueConfig}
use transfer_queue.Platform.Runtime.{Runtime, View, IsCodec}
use transfer_queue.DiskStorage
use transfer_queue.DiskStorage.{DiskStorage, file_name}
use transfer_queue.BufferShard
use transfer_queue.BufferShard.{BufferShard}
use transfer_queue.BufferManager.{build_shards}
use transfer_queue.BufferManager.Whole.{AreApart, ApartFrom, AllApart}

abbrev pub NoSlash : Str → Type 0
NoSlash s = All (λ c. c ≢ 47) s

head_or_zero : Str → ℕ
head_or_zero [] = 0
head_or_zero (c ∷ s) = c

-- What stands before the first slash.
before_slash : (a b x y : Str) → NoSlash a → NoSlash b → a ++ 47 ∷ x ≡ b ++ 47 ∷ y → a ≡ b
unfolding head_or_zero
before_slash [] [] x y h k e = refl
before_slash [] (c ∷ b) x y h k e = absurd (k.0 (sym (ap head_or_zero e)))
before_slash (c ∷ a) [] x y h k e = absurd (h.0 (ap head_or_zero e))
before_slash (c ∷ a) (d ∷ b) x y h k e =
    let heads : c ≡ d = ap head_or_zero e in
    let tails : a ≡ b = before_slash a b x y h.1 k.1 (ap (drop 1) e) in cc

-- The shard of a core once its directory is there.
abbrev pub opened : {F : Type 0} → BufferShard F → BufferShard F
opened s = record s { disk_storage = record s.disk_storage { initialized = true } }

module _ {W H F : Type 0} (rt : Runtime W H F) (v : View W H) (codec : IsCodec rt)
    (digits : (n : ℕ) → NoSlash (rt.to_string n)) (cfg : TransferQueueConfig F) where
  abbrev disk_of : ℕ → DiskStorage
  disk_of i = (opened (BufferShard.make rt cfg i)).disk_storage

  disk_of-AreApart : (i j : ℕ) → i ≢ j → AreApart rt v (disk_of i) (disk_of j)
  unfolding BufferShard.make DiskStorage.make
  disk_of-AreApart i j differ m n e =
      let shard_name : ℕ → Str =
        λ k. b'/' ∷ b's' ∷ b'h' ∷ b'a' ∷ b'r' ∷ b'd' ∷ b'_' ∷ rt.to_string k in
      let same = append_cancel_left cfg.spdk_bdev_name _ _ (
        sym (append_assoc cfg.spdk_bdev_name (shard_name i) (47 ∷ rt.to_string m))
        ∙ e
        ∙ append_assoc cfg.spdk_bdev_name (shard_name j) (47 ∷ rt.to_string n)) in
      differ (
        codec.to_string-injective i j (
          before_slash (rt.to_string i) (rt.to_string j) _ _ (digits i) (digits j)
            (ap (drop 7) same)))

  from_ApartFrom :
      (i j n : ℕ) → i < j → ApartFrom rt v (disk_of i) (map opened (build_shards rt cfg j n))
  unfolding build_shards
  from_ApartFrom i j zero h = tt
  from_ApartFrom i j (suc n) h = (
    (
      disk_of-AreApart i j (λ e. absurd (omega (arith, e, h))),
      disk_of-AreApart j i (λ e. absurd (omega (arith, e, h))),
    ),
    from_ApartFrom i (suc j) n (omega (arith, h)),
  )

  pub build_shards-AllApart : (i n : ℕ) → AllApart rt v (map opened (build_shards rt cfg i n))
  unfolding build_shards
  build_shards-AllApart i zero = tt
  build_shards-AllApart i (suc n) =
      (from_ApartFrom i (suc i) n (omega arith), build_shards-AllApart (suc i) n)
