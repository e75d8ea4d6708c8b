-- ===== src/Platform/Runtime.antt =====
-- What the program calls and does not implement: files and clocks (Seastar, the C++ library),
-- Protobuf's serialisation, `std::hash`, `std::to_string` and `double`. `W` is the state of the
-- world outside the process, `H` an open file, `F` a `double`.
use transfer_queue.Prelude.{
  ℕ, ◌^◌, ◌≤◌, ◌<◌, ◌≡◌, ◌≢◌, Bool, true, [], Option, none, some, Str, length, take, drop,
}
use transfer_queue.Platform.{Double}
use transfer_queue.Action.{Action, ok}
use transfer_queue.Proto.{TrajectoryGroup}

pub record Runtime (W H F : Type 0) : Type 0 where
  pub double : Double F
  -- `std::hash<std::string>` and `std::to_string(uint64_t)`.
  pub hash : Str → ℕ
  pub to_string : ℕ → Str
  -- `SerializeToString`, `ParseFromArray` and `ByteSizeLong` of a group.
  pub serialize : TrajectoryGroup F → Option Str
  pub parse : Str → Option (TrajectoryGroup F)
  pub byte_size : TrajectoryGroup F → ℕ
  -- `seastar::file_exists`, `make_directory`, and `S_ISDIR` of `file_stat`.
  pub file_exists : Str → Action W Bool
  pub make_directory : Str → Action W (Unit {0})
  pub is_directory : Str → Action W Bool
  -- `open_file_dma` with `rw | create | truncate`, and with `ro`.
  pub open_truncate : Str → Action W H
  pub open_read : Str → Action W H
  pub aligned_alloc : ℕ → ℕ → Action W Bool
  pub dma_write : H → ℕ → Str → Action W ℕ
  -- `read_exactly` on a file stream that stands at a position.
  pub read_exactly : H → ℕ → ℕ → Action W Str
  pub close_stream : H → Action W (Unit {0})
  pub close : H → Action W (Unit {0})
  pub remove_file : Str → Action W (Unit {0})
  -- `steady_clock::now()`, in nanoseconds.
  pub now : Action W ℕ

-- A world seen as its files and the time.
pub record View (W H : Type 0) : Type 0 where
  pub contents : W → Str → Option Str
  pub time : W → ℕ
  pub name : H → Str

-- The files are the same, and time has not gone back.
pub record Quiet {W H : Type 0} (v : View W H) (w w' : W) : Type 0 where
  pub same : (q : Str) → v.contents w' q ≡ v.contents w q
  pub later : v.time w ≤ v.time w'

-- One file is as given, the others are the same.
pub record Wrote {W H : Type 0} (v : View W H) (n : Str) (s : Option Str) (w w' : W) : Type 0 where
  pub there : v.contents w' n ≡ s
  pub same : (q : Str) → q ≢ n → v.contents w' q ≡ v.contents w q
  pub later : v.time w ≤ v.time w'

-- Protobuf: a group that was serialised is parsed back, and is below 2 GiB.
pub record IsCodec {W H F : Type 0} (rt : Runtime W H F) : Type 0 where
  pub parse-serialize :
      (g : TrajectoryGroup F) (s : Str) → rt.serialize g ≡ some s → rt.parse s ≡ some g
  pub limit : (g : TrajectoryGroup F) (s : Str) → rt.serialize g ≡ some s → length s < 2 ^ 31
  pub to_string-injective : (m n : ℕ) → rt.to_string m ≡ rt.to_string n → m ≡ n

-- Files and clocks on a machine where no operation fails: what is written is read back, and the
-- clock is positive, fits in an `int64_t` and does not go back.
pub record IsReliable {W H F : Type 0} (rt : Runtime W H F) (v : View W H) : Type 0 where
  pub now_lem :
      (w : W)
      → (t : ℕ) × ((rt.now w).0 ≡ ok t)
        × (0 < t)
        × (t < 2 ^ 63)
        × (v.time w ≤ t)
        × (v.time (rt.now w).1 ≡ t)
        × ((q : Str) → v.contents (rt.now w).1 q ≡ v.contents w q)
  pub aligned_alloc_lem :
      (a n : ℕ) (w : W)
      → ((rt.aligned_alloc a n w).0 ≡ ok true) × Quiet v w (rt.aligned_alloc a n w).1
  pub open_truncate_lem :
      (n : Str) (w : W)
      → (h : H) × ((rt.open_truncate n w).0 ≡ ok h)
        × (v.name h ≡ n)
        × Wrote v n (some []) w (rt.open_truncate n w).1
  pub dma_write_lem :
      (h : H) (s : Str) (w : W)
      → v.contents w (v.name h) ≡ some []
      → ((rt.dma_write h 0 s w).0 ≡ ok (length s))
        × Wrote v (v.name h) (some s) w (rt.dma_write h 0 s w).1
  pub open_read_lem :
      (n s : Str) (w : W)
      → v.contents w n ≡ some s
      → (h : H) × ((rt.open_read n w).0 ≡ ok h) × (v.name h ≡ n) × Quiet v w (rt.open_read n w).1
  pub read_exactly_lem :
      (h : H) (p k : ℕ) (s : Str) (w : W)
      → v.contents w (v.name h) ≡ some s
      → ((rt.read_exactly h p k w).0 ≡ ok (take k (drop p s)))
        × Quiet v w (rt.read_exactly h p k w).1
  pub close_stream_lem :
      (h : H) (w : W) → ((rt.close_stream h w).0 ≡ ok tt) × Quiet v w (rt.close_stream h w).1
  pub close_lem : (h : H) (w : W) → ((rt.close h w).0 ≡ ok tt) × Quiet v w (rt.close h w).1
  pub remove_file_lem :
      (n s : Str) (w : W)
      → v.contents w n ≡ some s
      → ((rt.remove_file n w).0 ≡ ok tt) × Wrote v n none w (rt.remove_file n w).1
