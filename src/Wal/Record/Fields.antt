-- ===== src/Wal/Record/Fields.antt =====
-- A 32-bit field is read back from wherever it was written.
use Prim.Native.Nat.{bit_or}
use key_value_store.Common.{
  ℕ, ◌+◌, ◌*◌, ◌/◌, ◌%◌, ◌^◌, ◌<◌, ◌≡◌, refl, Bytes, length, ◌++◌, arith, bit_and_mask,
  bit_or_shifted, get_or-append_right,
}
use key_value_store.Wal.Record.{little_endian32, read_little_endian32}

pub length-little_endian32 : (v : ℕ) → length (little_endian32 v) ≡ 4
unfolding little_endian32
length-little_endian32 v = refl

join_bytes :
    (a b c d : ℕ)
    → a < 256
    → b < 256
    → c < 256
    → bit_or (bit_or (bit_or a (b * 2 ^ 8)) (c * 2 ^ 16)) (d * 2 ^ 24)
      ≡ a + b * 2 ^ 8 + c * 2 ^ 16 + d * 2 ^ 24
join_bytes a b c d ha hb hc =
    let e₁ = bit_or_shifted 8 a b ha in
    let e₂ = bit_or_shifted 16 (a + b * 2 ^ 8) c (omega arith) in
    rw (e₁, e₂) (bit_or_shifted 24 (a + b * 2 ^ 8 + c * 2 ^ 16) d (omega arith))

-- What `read_little_endian32` makes of the bytes of `little_endian32 v`, met at `offset`.
pub read-little_endian32 :
    (before rest : Bytes) (v offset : ℕ)
    → v < 2 ^ 32
    → offset ≡ length before
    → read_little_endian32 (before ++ (little_endian32 v ++ rest)) offset ≡ v
unfolding read_little_endian32 little_endian32
read-little_endian32 before rest v offset h e =
    rw
      (
        get_or-append_right before (little_endian32 v ++ rest) 0 offset 0 (omega arith),
        get_or-append_right before (little_endian32 v ++ rest) 1 (offset + 1) 0 (omega arith),
        get_or-append_right before (little_endian32 v ++ rest) 2 (offset + 2) 0 (omega arith),
        get_or-append_right before (little_endian32 v ++ rest) 3 (offset + 3) 0 (omega arith),
        bit_and_mask 8 v,
        bit_and_mask 8 (v / 2 ^ 8),
        bit_and_mask 8 (v / 2 ^ 16),
        bit_and_mask 8 (v / 2 ^ 24),
        join_bytes (v % 256) (v / 2 ^ 8 % 256) (v / 2 ^ 16 % 256) (v / 2 ^ 24 % 256) (omega arith)
            (omega arith) (omega arith),
      )
      (omega arith)
