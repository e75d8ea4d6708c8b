-- ===== src/DiskStorage.antt =====
-- server/disk_storage.h and disk_storage.cc: one file for each spilled group.
pub mod Words
pub mod RoundTrip
pub mod Loads
pub mod Batch
mod Tests
use transfer_queue.Prelude.{
  ℕ, ◌+◌, ◌-◌, ◌*◌, ◌/◌, ◌%◌, ◌^◌, suc, Bool, true, false, not, List, [], ◌∷◌, ◌++◌, Option, none,
  some, Str, length, take, replicate, ltb, if◌then◌else◌,
}
use transfer_queue.Prelude.Int.{ℤ, pos}
use transfer_queue.Action.{
  Action, Result, Error, ok, err, not_initialized, serialize_failed, not_a_directory, bad_alloc,
  eof_header, eof_body, group_too_large, parse_failed, pure, throw, continue, ◌>>=◌, ◌>>◌, finally,
  for_each,
}
use transfer_queue.Platform.{size_mod}
use transfer_queue.Platform.Runtime.{Runtime}
use transfer_queue.Proto.{TrajectoryGroup}
use Words.{write_u32_le, read_u32_le}

-- `bdev_name_` and `initialized_`; the other fields are never used.
pub record DiskStorage : Type 0 where
  pub bdev_name : Str
  pub initialized : Bool

-- The process and the world: `counter` is the static atomic counter of `spill`.
pub record Env (W : Type 0) : Type 0 where
  pub counter : ℕ
  pub world : W

abbrev pub lift : {W A : Type 0} → Action W A → Action (Env W) A
lift m s = ((m s.world).0, record s { world = (m s.world).1 })

-- `counter++`, which wraps.
abbrev pub next_count : {W : Type 0} → Action (Env W) ℕ
next_count s = (ok s.counter, record s { counter = suc s.counter % size_mod })

abbrev pub guard : {S : Type 0} → Bool → Error → Action S (Unit {0})
guard true e = pure tt
guard false e = throw e

abbrev pub from_option : {S A : Type 0} → Option A → Error → Action S A
from_option none e = throw e
from_option (some a) e = pure a

-- The largest body that `load` accepts.
abbrev pub max_group_bytes : ℕ
max_group_bytes = 100 * 1024 * 1024

abbrev pub header_align : ℕ
header_align = 4096

unfoldable pub make : Str → DiskStorage
make bdev_name = record { bdev_name = bdev_name; initialized = false }

unfoldable pub shutdown : DiskStorage → DiskStorage
shutdown d = record d { initialized = false }

pub is_initialized : DiskStorage → Bool
is_initialized d = d.initialized

-- `4 + data_len` is computed in `uint32_t`.
unfoldable pub total_size : ℕ → ℕ
total_size data_len = (4 + data_len) % 2 ^ 32

unfoldable pub aligned_size : ℕ → ℕ
aligned_size total = (total + header_align - 1) / header_align * header_align

-- The buffer that `spill` writes: header, body, zero padding.
unfoldable pub frame : Str → Str
unfolding total_size aligned_size write_u32_le
frame body =
    let data_len = length body % 2 ^ 32 in
    let total = total_size data_len in
    write_u32_le data_len ++ (take data_len body ++ replicate (aligned_size total - total) 0)

module _ {W H F : Type 0} (rt : Runtime W H F) where
  abbrev pub file_name : DiskStorage → ℕ → Str
  file_name d id = d.bdev_name ++ (47 ∷ rt.to_string id)

  unfoldable pub init : DiskStorage → Action W DiskStorage
  init d = do
    exists ← rt.file_exists d.bdev_name
    elim exists [ true ↦ pure tt | false ↦ rt.make_directory d.bdev_name ]
    is_dir ← rt.is_directory d.bdev_name
    guard is_dir not_a_directory
    pure (record d { initialized = true })

  -- The continuations of `spill` once the file name is chosen; what `dma_write` returns is dropped.
  unfoldable pub write_file : Str → Str → Action W (Unit {0})
  write_file filename body = do
    f ← rt.open_truncate filename
    raw_buf ← rt.aligned_alloc header_align (aligned_size (total_size (length body % 2 ^ 32)))
    guard raw_buf bad_alloc
    written ← rt.dma_write f 0 (frame body)
    rt.close f

  unfoldable pub spill : DiskStorage → TrajectoryGroup F → Action (Env W) ℕ
  spill d group = do
    guard d.initialized not_initialized
    body ← from_option (rt.serialize group) serialize_failed
    t ← lift rt.now
    count ← next_count
    let id = (t + count) % size_mod
    lift (write_file (file_name d id) body)
    pure id

  unfoldable pub spill_batch : DiskStorage → List (TrajectoryGroup F) → Action (Env W) (List ℕ)
  spill_batch d = for_each (spill d)

  -- The continuations of `load` on an open stream.
  unfoldable pub read_group : H → Action W (TrajectoryGroup F)
  read_group f = do
    header_buf ← rt.read_exactly f 0 4
    guard (not (ltb (length header_buf) 4)) eof_header
    let len = read_u32_le header_buf
    guard (not (ltb max_group_bytes len)) group_too_large
    body_buf ← rt.read_exactly f 4 len
    guard (not (ltb (length body_buf) len)) eof_body
    from_option (rt.parse (take len body_buf)) parse_failed

  unfoldable pub load : DiskStorage → ℕ → Action W (TrajectoryGroup F)
  load d offset = do
    guard d.initialized not_initialized
    f ← rt.open_read (file_name d offset)
    finally (read_group f) (finally (rt.close_stream f) (rt.close f))

  unfoldable pub load_batch : DiskStorage → List ℕ → Action W (List (TrajectoryGroup F))
  load_batch d = for_each (load d)

  unfoldable pub remove : DiskStorage → ℕ → Action W (Unit {0})
  remove d offset = elim d.initialized [
    | false ↦ pure tt
    | true ↦ rt.remove_file (file_name d offset)
  ]

  unfoldable pub get_disk_usage : DiskStorage → Action W ℤ
  get_disk_usage d = pure (pos 0)
