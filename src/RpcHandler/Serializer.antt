-- ===== src/RpcHandler/Serializer.antt =====
-- The serialiser of server/rpc_handler.h. An output stream is the bytes written; an input stream is
-- the bytes left, and a read past its end throws.
use transfer_queue.Prelude.{
  ℕ, zero, suc, ◌+◌, ◌-◌, ◌*◌, ◌/◌, ◌%◌, ◌^◌, Bool, not, List, [], ◌∷◌, ◌++◌, Option, none, some,
  Str, length, take, drop, ltb, ◌==◌, if◌then◌else◌,
}
use transfer_queue.Prelude.Int.{ℤ, pos, negsuc}
use transfer_queue.Action.{
  Action, Result, ok, err, underflow, serialize_failed, parse_failed, pure, throw, ◌>>=◌,
}

-- A writer gives its bytes or an exception; a reader takes its bytes off the input.
abbrev pub Writer : Type 0 → Type 0
Writer A = A → Result Str

abbrev pub Reader : Type 0 → Type 0
Reader A = Action Str A

-- `out.write` of the object representation of a word of `n` bytes, least byte first.
unfoldable pub bytes_le : ℕ → ℕ → Str
bytes_le zero v = []
bytes_le (suc n) v = (v % 256) ∷ bytes_le n (v / 256)

unfoldable pub value_le : Str → ℕ
value_le [] = 0
value_le (b ∷ s) = b + 256 * value_le s

-- `in.read(buf, n)`.
unfoldable pub read_bytes : ℕ → Reader Str
read_bytes n s = if ltb (length s) n then (err underflow, s) else (ok (take n s), drop n s)

unfoldable pub write_stream_le : ℕ → Writer ℕ
write_stream_le n v = ok (bytes_le n v)

unfoldable pub read_stream_le : ℕ → Reader ℕ
read_stream_le n = do b ← read_bytes n; pure (value_le b)

abbrev pub write_le_uint32 : Writer ℕ
write_le_uint32 = write_stream_le 4

abbrev pub read_le_uint32 : Reader ℕ
read_le_uint32 = read_stream_le 4

abbrev pub write_le_uint64 : Writer ℕ
write_le_uint64 = write_stream_le 8

abbrev pub read_le_uint64 : Reader ℕ
read_le_uint64 = read_stream_le 8

-- A signed word as the unsigned word with the same bits, of which there are `m`.
unfoldable pub to_word : ℕ → ℤ → ℕ
to_word m (pos n) = n % m
to_word m (negsuc n) = m - 1 - n % m

unfoldable pub of_word : ℕ → ℕ → ℤ
of_word m n = if ltb n (m / 2) then pos n else negsuc (m - 1 - n)

unfoldable pub write_le_int32 : Writer ℤ
write_le_int32 v = write_stream_le 4 (to_word (2 ^ 32) v)

unfoldable pub read_le_int32 : Reader ℤ
read_le_int32 = do n ← read_stream_le 4; pure (of_word (2 ^ 32) n)

unfoldable pub write_le_int64 : Writer ℤ
write_le_int64 v = write_stream_le 8 (to_word (2 ^ 64) v)

unfoldable pub read_le_int64 : Reader ℤ
read_le_int64 = do n ← read_stream_le 8; pure (of_word (2 ^ 64) n)

unfoldable pub write_le_bool : Writer Bool
write_le_bool v = write_stream_le 1 (if v then 1 else 0)

unfoldable pub read_le_bool : Reader Bool
read_le_bool = do n ← read_stream_le 1; pure (not (n == 0))

-- `write_impl` and `read_impl` of `seastar::sstring`.
unfoldable pub write_string : Writer Str
write_string v = ok (bytes_le 4 (length v % 2 ^ 32) ++ v)

unfoldable pub read_string : Reader Str
read_string = do size ← read_le_uint32; read_bytes size

-- Of a Protobuf message, with its serialisation.
module _ {A : Type 0} (serialize : A → Option Str) (parse : Str → Option A) where
  abbrev pub framed : Option Str → Result Str
  framed none = err serialize_failed
  framed (some s) = write_string s

  unfoldable pub write_message : Writer A
  write_message v = framed (serialize v)

  abbrev pub parsed : Option A → Reader A
  parsed none = throw parse_failed
  parsed (some a) = pure a

  unfoldable pub read_message : Reader A
  read_message = do s ← read_string; parsed (parse s)

-- Of a vector, with the writer and the reader of its elements.
module _ {A : Type 0} (write : Writer A) (read : Reader A) where
  abbrev pub join : Result Str → Result Str → Result Str
  join (err e) rest = err e
  join (ok s) (err e) = err e
  join (ok s) (ok t) = ok (s ++ t)

  unfoldable pub write_items : List A → Result Str
  write_items [] = ok []
  write_items (a ∷ l) = join (write a) (write_items l)

  unfoldable pub write_vector : Writer (List A)
  write_vector v = join (write_le_uint32 (length v % 2 ^ 32)) (write_items v)

  unfoldable pub read_items : ℕ → Reader (List A)
  read_items zero = pure []
  read_items (suc n) = do a ← read; l ← read_items n; pure (a ∷ l)

  unfoldable pub read_vector : Reader (List A)
  read_vector = do size ← read_le_uint32; read_items size
