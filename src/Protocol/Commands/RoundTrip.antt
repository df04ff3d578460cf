-- ===== src/Protocol/Commands/RoundTrip.antt =====
-- A command is read back from its payload, and only well-formed payloads are accepted.
use key_value_store.Common.{
  append-nil, le→ltb, [], take-append_left, drop-append_right, append_assoc, length-append, ℕ, ◌+◌,
  ◌^◌, ◌%◌, ◌<◌, ◌≤◌, ◌≡◌, ◌++◌, ◌∷◌, refl, some, Bytes, length, drop, arith,
}
use key_value_store.Wal.Record.{little_endian32, read_little_endian32}
use key_value_store.Wal.Record.Fields.{read-little_endian32}
use key_value_store.Protocol.Commands.{
  del_tag, set_tag, Command, set_command, del_command, u32_bytes, blob_bytes, serialize, read_u32,
  read_blob, deserialize_set, deserialize_del, deserialize_command,
}

-- The two copies of the field code write and read alike.
u32_bytes-eq : (v : ℕ) → u32_bytes v ≡ little_endian32 v
unfolding u32_bytes little_endian32
u32_bytes-eq v = refl

read_u32-eq :
    (bytes : Bytes) (offset : ℕ)
    → offset + 4 ≤ length bytes
    → read_u32 bytes offset ≡ some (read_little_endian32 bytes offset, offset + 4)
unfolding read_u32 read_little_endian32
read_u32-eq bytes offset h = ground arith

length-blob_bytes : (blob : Bytes) → length (blob_bytes blob) ≡ 4 + length blob
unfolding blob_bytes u32_bytes
length-blob_bytes blob = omega arith

module _ (before blob rest : Bytes) (small : length blob < 2 ^ 32) where
  abbrev holder : Bytes
  holder = before ++ (blob_bytes blob ++ rest)

  length-holder : length holder ≡ length before + 4 + length blob + length rest
  length-holder = omega (
    arith,
    length-append before (blob_bytes blob ++ rest),
    length-append (blob_bytes blob) rest,
    length-blob_bytes blob,
  )

  blob_length :
      (offset : ℕ) → offset ≡ length before → read_little_endian32 holder offset ≡ length blob
  unfolding blob_bytes
  blob_length offset e =
      let fits : length blob % 2 ^ 32 ≡ length blob = omega arith in
      rw (fits, u32_bytes-eq, append_assoc)
        (read-little_endian32 before (blob ++ rest) (length blob) offset small e)

  blob_body : (offset : ℕ) → offset ≡ length before → drop (offset + 4) holder ≡ blob ++ rest
  unfolding blob_bytes u32_bytes
  blob_body offset e =
      drop-append_right before (blob_bytes blob ++ rest) 4 (offset + 4) (omega arith)

  -- A blob that stands at `length before` is read, and the offset moves behind it.
  read_blob-blob_bytes :
      (offset : ℕ)
      → offset ≡ length before
      → read_blob holder offset ≡ some (blob, offset + 4 + length blob)
  unfolding read_blob
  read_blob-blob_bytes offset e =
      rw
        (
          read_u32-eq holder offset (omega (arith, length-holder)),
          blob_length offset e,
          blob_body offset e,
          take-append_left blob rest (length blob) refl,
          le→ltb (length holder) (offset + 4 + length blob) (omega (arith, length-holder)),
        )
        refl

-- The sizes that a 32-bit length field can hold.
abbrev pub Fits : Command → Type 0
Fits (set_command key value) = (length key < 2 ^ 32) × (length value < 2 ^ 32)
Fits (del_command key) = length key < 2 ^ 32

pub length-serialize_set :
    (key value : Bytes) → length (serialize (set_command key value)) ≡ 9 + length key + length value
unfolding serialize
length-serialize_set key value = omega (
  arith,
  length-append (blob_bytes key) (blob_bytes value),
  length-blob_bytes key,
  length-blob_bytes value,
)

pub length-serialize_del : (key : Bytes) → length (serialize (del_command key)) ≡ 5 + length key
unfolding serialize
length-serialize_del key = omega (arith, length-blob_bytes key)

-- `deserializeCommand` inverts `serialize` on every command whose key and value fit a length field.
pub deserialize_command-serialize :
    (c : Command) → Fits c → deserialize_command (serialize c) ≡ some c
unfolding deserialize_command serialize deserialize_set deserialize_del
deserialize_command-serialize (set_command key value) h =
    let first = read_blob-blob_bytes (set_tag ∷ []) key (blob_bytes value) h.0 1 refl in
    let second =
      read_blob-blob_bytes (set_tag ∷ blob_bytes key) value [] h.1 (1 + 4 + length key)
        (omega (arith, length-blob_bytes key)) in
    ground (
      arith,
      first,
      second,
      append-nil (blob_bytes value),
      length-append (blob_bytes key) (blob_bytes value),
      length-blob_bytes key,
      length-blob_bytes value,
    )
deserialize_command-serialize (del_command key) h =
    let first = read_blob-blob_bytes (del_tag ∷ []) key [] h 1 refl in
    ground (arith, first, append-nil (blob_bytes key), length-blob_bytes key)
