-- ===== src/Wal/Record.antt =====
-- src/wal/record.cpp and record.h: a record is `[length][crc32][payload]`, little-endian. A read of
-- a byte out of range gives 0 here; the guards keep every read in range. Sizes and offsets stay far
-- below 2 ^ 64, as those of every `std::string` do, so `std::size_t` does not wrap here.
pub mod Crc
pub mod Fields
pub mod Framing
use key_value_store.Common.{
  ℕ, zero, suc, ◌+◌, ◌*◌, ◌/◌, ◌%◌, ◌^◌, Bool, List, [], ◌∷◌, ◌++◌, Bytes, length, get_or, take,
  drop, ltb, ◌==◌, if◌then◌else◌, not,
}
use Prim.Native.Nat.{bit_and, bit_or, bit_xor}
use mathlib.Core.List.{foldl}

abbrev pub header_bytes : ℕ
header_bytes = 8

abbrev pub max_payload_bytes : ℕ
max_payload_bytes = 64 * 1024 * 1024

-- `for (bit = 0; bit < 8; ++bit)`, with the count of rounds left.
unfoldable pub crc_rounds : ℕ → ℕ → ℕ
crc_rounds zero crc = crc
crc_rounds (suc n) crc =
    crc_rounds n (if bit_and crc 1 == 1 then bit_xor (crc / 2) 0xEDB88320 else crc / 2)

-- The table from entry `i` on, with `n` entries to fill.
unfoldable pub crc_table_from : ℕ → ℕ → List ℕ
unfolding crc_rounds
crc_table_from zero i = []
crc_table_from (suc n) i = crc_rounds 8 i ∷ crc_table_from n (i + 1)

unfoldable pub crc_table : List ℕ
unfolding crc_table_from
crc_table = crc_table_from 256 0

-- One round of the loop of `crc32`.
unfoldable pub crc_byte : ℕ → ℕ → ℕ
unfolding crc_table
crc_byte crc b = bit_xor (get_or crc_table (bit_and (bit_xor crc b) 0xFF) 0) (crc / 2 ^ 8)

unfoldable pub crc32 : Bytes → ℕ
unfolding crc_byte
crc32 bytes = bit_xor (foldl crc_byte 0xFFFFFFFF bytes) 0xFFFFFFFF

-- The four bytes that `appendLittleEndian32` pushes.
unfoldable pub little_endian32 : ℕ → Bytes
little_endian32 value =
    bit_and value 0xFF
    ∷ bit_and (value / 2 ^ 8) 0xFF
    ∷ bit_and (value / 2 ^ 16) 0xFF
    ∷ bit_and (value / 2 ^ 24) 0xFF
    ∷ []

unfoldable pub read_little_endian32 : Bytes → ℕ → ℕ
read_little_endian32 buffer offset =
    bit_or
      (bit_or (bit_or (get_or buffer offset 0) (get_or buffer (offset + 1) 0 * 2 ^ 8))
        (get_or buffer (offset + 2) 0 * 2 ^ 16))
      (get_or buffer (offset + 3) 0 * 2 ^ 24)

-- The casts to `std::uint32_t` keep the low 32 bits.
unfoldable pub frame : Bytes → Bytes
frame payload =
    little_endian32 (length payload % 2 ^ 32) ++ (little_endian32 (crc32 payload) ++ payload)

-- `ParseResult`, with what `Ok` leaves in `payload` and `nextOffset`.
pub data ParseResult : Type 0 where
  parsed : Bytes → ℕ → ParseResult
  incomplete corrupt : ParseResult

unfoldable pub parse_record : Bytes → ℕ → ParseResult
parse_record buffer offset =
    if ltb (length buffer) (offset + header_bytes)
    then incomplete
    else let len = read_little_endian32 buffer offset in
      let expected = read_little_endian32 buffer (offset + 4) in
      if ltb max_payload_bytes len
      then corrupt
      else let body = offset + header_bytes in
        if ltb (length buffer) (body + len)
        then incomplete
        else let payload = take len (drop body buffer) in
          if not (crc32 payload == expected) then corrupt else parsed payload (body + len)
