-- ===== src/DiskStorage/Words.antt =====
-- `write_u32_le` and `read_u32_le` of server/disk_storage.cc.
use transfer_queue.Prelude.{ℕ, ◌+◌, ◌*◌, ◌/◌, ◌%◌, ◌^◌, ◌<◌, ◌≡◌, ◌++◌, [], ◌∷◌, Str, get_or, arith}

unfoldable pub write_u32_le : ℕ → Str
write_u32_le v = (v % 256) ∷ (v / 256 % 256) ∷ (v / 65536 % 256) ∷ (v / 16777216 % 256) ∷ []

-- `memcpy` of four bytes; the caller has checked that they are there.
unfoldable pub read_u32_le : Str → ℕ
read_u32_le buf =
    get_or buf 0 0 + get_or buf 1 0 * 256 + get_or buf 2 0 * 65536 + get_or buf 3 0 * 16777216

-- Every 32-bit number is read back, whatever follows it.
pub read_u32_le-write_u32_le :
    (v : ℕ) (rest : Str) → v < 2 ^ 32 → read_u32_le (write_u32_le v ++ rest) ≡ v
unfolding write_u32_le read_u32_le
read_u32_le-write_u32_le v rest h = omega arith
