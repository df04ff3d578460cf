-- ===== src/Wal/Record/Crc.antt =====
-- `crc32` fits 32 bits, and agrees with the published check value.
use Prim.Native.Nat.{bit_and, bit_xor}
use mathlib.Core.List.{foldl}
use key_value_store.Common.{
  ℕ, zero, suc, ◌+◌, ◌/◌, ◌^◌, ◌≤◌, ◌<◌, ◌≡◌, refl, List, [], ◌∷◌, Bytes, codes, get_or, All, arith,
  bit_xor-lt,
}
use key_value_store.Wal.Record.{crc_rounds, crc_table_from, crc_table, crc_byte, crc32}

crc_rounds-lt : (n crc : ℕ) → crc < 2 ^ 32 → crc_rounds n crc < 2 ^ 32
unfolding crc_rounds
crc_rounds-lt zero crc h = h
crc_rounds-lt (suc n) crc h =
    crc_rounds-lt n _
      (ground (arith, bit_xor-lt 32 (crc / 2) 0xEDB88320 (omega arith) (omega arith)))

crc_table_from-lt : (n i : ℕ) → i + n ≤ 256 → All (λ e. e < 2 ^ 32) (crc_table_from n i)
unfolding crc_table_from
crc_table_from-lt zero i h = tt
crc_table_from-lt (suc n) i h =
    (crc_rounds-lt 8 i (omega arith), crc_table_from-lt n (i + 1) (omega arith))

get_or-lt : (xs : List ℕ) (i n : ℕ) → 0 < n → All (λ e. e < n) xs → get_or xs i 0 < n
get_or-lt [] i n h all = h
get_or-lt (x ∷ xs) zero n h all = all.0
get_or-lt (x ∷ xs) (suc i) n h all = get_or-lt xs i n h all.1

crc_byte-lt : (crc b : ℕ) → crc < 2 ^ 32 → crc_byte crc b < 2 ^ 32
unfolding crc_byte
crc_byte-lt crc b h =
    bit_xor-lt 32 (get_or crc_table (bit_and (bit_xor crc b) 0xFF) 0) (crc / 2 ^ 8)
      (get_or-lt crc_table (bit_and (bit_xor crc b) 0xFF) (2 ^ 32) (omega arith)
        (crc_table_from-lt 256 0 (omega arith)))
      (omega arith)

crc_loop-lt : (bytes : Bytes) (crc : ℕ) → crc < 2 ^ 32 → foldl crc_byte crc bytes < 2 ^ 32
crc_loop-lt [] crc h = h
crc_loop-lt (b ∷ bytes) crc h = crc_loop-lt bytes (crc_byte crc b) (crc_byte-lt crc b h)

pub crc32-lt : (bytes : Bytes) → crc32 bytes < 2 ^ 32
unfolding crc32
crc32-lt bytes =
    bit_xor-lt 32 _ 0xFFFFFFFF (crc_loop-lt bytes 0xFFFFFFFF (omega arith)) (omega arith)

-- The check value of CRC-32.
crc32_check : crc32 (codes "123456789") ≡ 0xCBF43926
unfolding crc32
crc32_check = refl
