-- ===== src/Platform/Sample.antt =====
-- A machine in memory to run the model on: files in an association list, a clock that moves by one
-- nanosecond at each reading, and no operation that fails.
use transfer_queue.Prelude.{
  ℕ, ◌+◌, ◌-◌, ◌*◌, ◌^◌, ◌≡◌, refl, true, [], ◌∷◌, Option, none, some, ite, if_pos, if_neg, Str,
  Str-discrete, length, take, drop, is_some, min, arith,
}
use transfer_queue.Action.{Action, ok, err, io, pure}
use transfer_queue.Platform.Fixed.{fixed}
use transfer_queue.Platform.Codec
use transfer_queue.Platform.Runtime.{Runtime, View, Quiet, Wrote, IsCodec, IsReliable}

pub record Machine : Type 0 where
  pub files : Str → Option Str
  pub clock : ℕ

abbrev written : Str → Option Str → Machine → Machine
written n s m = record m { files = λ q. ite (Str-discrete q n) s (m.files q) }

-- An operation on a file that must be there.
abbrev with_file : {A : Type 0} → Option Str → (Str → A) → Action Machine A
with_file none f m = (err (io 2), m)
with_file (some s) f m = (ok (f s), m)

-- A number as one character above the slash.
abbrev digits_of : ℕ → Str
digits_of n = (48 + n) ∷ []

abbrev last_time : ℕ
last_time = 2 ^ 63 - 1

abbrev pub machine : Runtime Machine Str ℕ
machine = record {
  double = fixed;
  hash = length;
  to_string = digits_of;
  serialize = Codec.serialize;
  parse = Codec.parse;
  byte_size = λ g. length g.trajectories * 100;
  file_exists = λ n m. (ok (is_some (m.files n)), m);
  make_directory = λ n. pure tt;
  is_directory = λ n. pure true;
  open_truncate = λ n m. (ok n, written n (some []) m);
  open_read = λ n m. with_file (m.files n) (λ _. n) m;
  aligned_alloc = λ a n. pure true;
  dma_write = λ h p s m. (ok (length s), written h (some s) m);
  read_exactly = λ h p k m. with_file (m.files h) (λ s. take k (drop p s)) m;
  close_stream = λ h. pure tt;
  close = λ h. pure tt;
  remove_file = λ n m. (elim (m.files n) [ none ↦ err (io 2) | some _ ↦ ok tt ], written n none m);
  now = λ m. (ok (min (m.clock + 1) last_time), record m { clock = min (m.clock + 1) last_time });
}

abbrev pub seen : View Machine Str
seen = record { contents = λ m. m.files; time = λ m. min m.clock last_time; name = λ h. h }

still : (m : Machine) → Quiet seen m m
still m = record { same = λ q. refl; later = omega arith }

written_lem : (n : Str) (s : Option Str) (m : Machine) → Wrote seen n s m (written n s m)
written_lem n s m = record {
  there = if_pos (Str-discrete n n) refl _ _;
  same = λ q h. if_neg (Str-discrete q n) h _ _;
  later = omega arith;
}

shifted : (m n : ℕ) → 48 + m ≡ 48 + n → m ≡ n
shifted m n e = omega (arith, e)

pub machine-IsCodec : IsCodec machine
machine-IsCodec = record {
  parse-serialize = Codec.parse-serialize;
  limit = Codec.serialize-limit;
  to_string-injective = λ m n e. shifted m n (cc e);
}

pub machine-IsReliable : IsReliable machine seen
machine-IsReliable = record {
  now_lem = λ m. (
    min (m.clock + 1) last_time,
    refl,
    omega arith,
    omega arith,
    omega arith,
    omega arith,
    λ q. refl,
  );
  aligned_alloc_lem = λ a n m. (refl, still m);
  open_truncate_lem = λ n m. (n, refl, refl, written_lem n (some []) m);
  dma_write_lem = λ h s m e. (refl, written_lem h (some s) m);
  open_read_lem = λ n s m e. rw e (n, refl, refl, still m);
  read_exactly_lem = λ h p k s m e. rw e (refl, still m);
  close_stream_lem = λ h m. (refl, still m);
  close_lem = λ h m. (refl, still m);
  remove_file_lem = λ n s m e. rw e (refl, written_lem n none m);
}
