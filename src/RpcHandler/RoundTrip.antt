-- ===== src/RpcHandler/RoundTrip.antt =====
-- The readers of server/rpc_handler.h on what its writers write.
use transfer_queue.Prelude.{
  ℕ, zero, suc, ◌*◌, ◌/◌, ◌%◌, ◌^◌, ◌<◌, ◌≡◌, refl, ap, subst, false, List, [], ◌∷◌, ◌++◌, Option,
  some, Str, length, length-append, drop, take-append, All, ltb, arith,
}
use mathlib.Core.List.{append_assoc}
use transfer_queue.Prelude.Int.{ℤ, pos, negsuc}
use transfer_queue.Action.{ok}
use transfer_queue.RpcHandler.Serializer.{
  Writer, Reader, bytes_le, value_le, read_bytes, write_stream_le, read_stream_le, to_word, of_word,
  write_le_int32, read_le_int32, write_string, read_string, write_message, read_message,
  write_items, write_vector, read_items, read_vector,
}

drop-length : (s t : Str) → drop (length s) (s ++ t) ≡ t
drop-length [] t = refl
drop-length (x ∷ s) t = drop-length s t

read_bytes-append : (n : ℕ) (s t : Str) → length s ≡ n → read_bytes n (s ++ t) ≡ (ok s, t)
unfolding read_bytes
read_bytes-append n s t h =
    let enough : ltb (length (s ++ t)) (length s) ≡ false = ground (arith, length-append s t) in
    subst (λ k. read_bytes k (s ++ t) ≡ (ok s, t)) h
      (rw (enough, take-append s t, drop-length s t) refl)

length-bytes_le : (n v : ℕ) → length (bytes_le n v) ≡ n
unfolding bytes_le
length-bytes_le zero v = refl
length-bytes_le (suc n) v = ap suc (length-bytes_le n (v / 256))

-- The number of words of `n` bytes.
unfoldable pub words : ℕ → ℕ
words zero = 1
words (suc n) = 256 * words n

value_le-bytes_le : (n v : ℕ) → v < words n → value_le (bytes_le n v) ≡ v
unfolding value_le bytes_le words
value_le-bytes_le zero v h = omega (arith, h)
value_le-bytes_le (suc n) v h = omega (arith, value_le-bytes_le n (v / 256) (omega (arith, h)))

word_fits : (v : ℕ) → v < 2 ^ 32 → v < words 4
unfolding words
word_fits v h = h

-- A value is written, and read back whatever follows it, which is left in the stream.
pub record Travels {A : Type 0} (write : Writer A) (read : Reader A) (a : A) : Type 0 where
  pub out : Str
  pub written : write a ≡ ok out
  pub back : (rest : Str) → read (out ++ rest) ≡ (ok a, rest)

word_back :
    (n v : ℕ) (rest : Str) → v < words n → read_stream_le n (bytes_le n v ++ rest) ≡ (ok v, rest)
unfolding read_stream_le
word_back n v rest h =
    rw (read_bytes-append n (bytes_le n v) rest (length-bytes_le n v), value_le-bytes_le n v h) refl

-- A word of any width is read back.
pub word-Travels : (n v : ℕ) → v < words n → Travels (write_stream_le n) (read_stream_le n) v
unfolding write_stream_le
word-Travels n v h = record {
  out = bytes_le n v;
  written = refl;
  back = λ rest. word_back n v rest h;
}

-- A string below 4 GiB is read back.
pub string-Travels : (s : Str) → length s < 2 ^ 32 → Travels write_string read_string s
unfolding write_string read_string
string-Travels s h =
    let small : length s % 2 ^ 32 ≡ length s = omega (arith, h) in
    record {
      out = bytes_le 4 (length s) ++ s;
      written = rw small refl;
      back = λ rest.
          rw
            (
              append_assoc (bytes_le 4 (length s)) s rest,
              word_back 4 (length s) (s ++ rest) (word_fits (length s) h),
              read_bytes-append (length s) s rest refl,
            )
            refl;
    }

module _ {A : Type 0} (serialize : A → Option Str) (parse : Str → Option A) where
  -- A message whose serialised form is below 4 GiB is read back, if Protobuf parses what it
  -- serialises.
  pub message-Travels :
      (a : A) (s : Str)
      → serialize a ≡ some s
      → parse s ≡ some a
      → length s < 2 ^ 32
      → Travels (write_message serialize parse) (read_message serialize parse) a
  unfolding write_message read_message
  message-Travels a s written back h =
      let t = string-Travels s h in
      record {
        out = t.out;
        written = rw written t.written;
        back = λ rest. rw (t.back rest, back) refl;
      }

module _ {A : Type 0} (write : Writer A) (read : Reader A) where
  record Items (l : List A) : Type 0 where
    out : Str
    written : write_items write read l ≡ ok out
    back : (rest : Str) → read_items write read (length l) (out ++ rest) ≡ (ok l, rest)

  items_lem : (l : List A) → All (Travels write read) l → Items l
  unfolding write_items read_items
  items_lem [] t = record { out = []; written = refl; back = λ rest. refl }
  items_lem (a ∷ l) t =
      let first = t.0 in
      let more = items_lem l t.1 in
      record {
        out = first.out ++ more.out;
        written = rw (first.written, more.written) refl;
        back = λ rest.
            rw (append_assoc first.out more.out rest, first.back (more.out ++ rest), more.back rest)
              refl;
      }

  -- A vector of fewer than 2^32 elements that are read back is read back.
  pub vector-Travels :
      (l : List A)
      → All (Travels write read) l
      → length l < 2 ^ 32
      → Travels (write_vector write read) (read_vector write read) l
  unfolding write_vector read_vector write_stream_le
  vector-Travels l t h =
      let items = items_lem l t in
      let small : length l % 2 ^ 32 ≡ length l = omega (arith, h) in
      record {
        out = bytes_le 4 (length l) ++ items.out;
        written = rw (small, items.written) refl;
        back = λ rest.
            rw
              (
                append_assoc (bytes_le 4 (length l)) items.out rest,
                word_back 4 (length l) (items.out ++ rest) (word_fits (length l) h),
                items.back rest,
              )
              refl;
      }

-- The signed integers of a width.
abbrev pub InRange : ℕ → ℤ → Type 0
InRange m (pos n) = n < m
InRange m (negsuc n) = n < m

of_word-to_word : (z : ℤ) → InRange (2 ^ 31) z → of_word (2 ^ 32) (to_word (2 ^ 32) z) ≡ z
unfolding of_word to_word
of_word-to_word (pos n) h = ground (arith, h)
of_word-to_word (negsuc n) h = ground (arith, h)

to_word_lt : (z : ℤ) → InRange (2 ^ 31) z → to_word (2 ^ 32) z < words 4
unfolding to_word words
to_word_lt (pos n) h = omega (arith, h)
to_word_lt (negsuc n) h = omega (arith, h)

-- A 32-bit integer of either sign is read back.
pub int32-Travels : (z : ℤ) → InRange (2 ^ 31) z → Travels write_le_int32 read_le_int32 z
unfolding write_le_int32 read_le_int32 words
int32-Travels z h =
    let t = word-Travels 4 (to_word (2 ^ 32) z) (to_word_lt z h) in
    record {
      out = t.out;
      written = t.written;
      back = λ rest. rw (t.back rest, of_word-to_word z h) refl;
    }
