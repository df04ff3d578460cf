-- ===== src/Wal/Record/Framing.antt =====
-- `frame` and `parseRecord`: the round trip, what a torn or oversized record gives, and what a
-- successful parse guarantees.
use key_value_store.Common.{
  ap, inr, inl, Bool-cases, take-append_right, ℕ, ◌+◌, ◌-◌, ◌%◌, ◌^◌, ◌≤◌, ◌<◌, ◌≡◌, refl, Bytes,
  length, ◌++◌, arith, take, drop, ltb, append_assoc, length-append, length-take, length-drop,
  take-append_left, drop-append_right,
}
use key_value_store.Wal.Record.{
  frame, parse_record, parsed, incomplete, corrupt, crc32, little_endian32, read_little_endian32,
  max_payload_bytes,
}
use key_value_store.Wal.Record.Crc.{crc32-lt}
use key_value_store.Wal.Record.Fields.{length-little_endian32, read-little_endian32}

pub length-frame : (p : Bytes) → length (frame p) ≡ 8 + length p
unfolding frame little_endian32
length-frame p = omega arith

-- The two fields of a record that stands at `length before`.
module _ (before payload rest : Bytes) (small : length payload < 2 ^ 32) where
  abbrev buffer : Bytes
  buffer = before ++ (frame payload ++ rest)

  buffer_split :
      buffer
      ≡ (before ++ little_endian32 (length payload))
        ++ (little_endian32 (crc32 payload) ++ (payload ++ rest))
  unfolding frame
  buffer_split =
      let e : length payload % 2 ^ 32 ≡ length payload = omega arith in simp (e, append_assoc)

  length_field : read_little_endian32 buffer (length before) ≡ length payload
  length_field =
      rw (buffer_split, append_assoc)
        (read-little_endian32 before _ (length payload) (length before) small refl)

  crc_field : read_little_endian32 buffer (length before + 4) ≡ crc32 payload
  crc_field = rw buffer_split (
      read-little_endian32 (before ++ little_endian32 (length payload)) (payload ++ rest)
        (crc32 payload) (length before + 4) (crc32-lt payload)
        (omega (
          arith,
          length-append before (little_endian32 (length payload)),
          length-little_endian32 (length payload),
        )))

  body_field : drop (length before + 8) buffer ≡ payload ++ rest
  unfolding frame little_endian32
  body_field = drop-append_right before (frame payload ++ rest) 8 (length before + 8) refl

  length-buffer : length buffer ≡ length before + 8 + length payload + length rest
  length-buffer = omega (
    arith,
    length-append before (frame payload ++ rest),
    length-append (frame payload) rest,
    length-frame payload,
  )

-- A record of at most 64 MB is parsed back wherever it stands in a buffer, and the next record
-- starts right behind it.
pub parse_record-frame :
    (before payload rest : Bytes)
    → length payload ≤ max_payload_bytes
    → parse_record (before ++ (frame payload ++ rest)) (length before)
      ≡ parsed payload (length before + (8 + length payload))
unfolding parse_record
parse_record-frame before payload rest h =
    let small : length payload < 2 ^ 32 = omega arith in
    rw
      (
        length_field before payload rest small,
        crc_field before payload rest small,
        body_field before payload rest small,
        length-buffer before payload rest small,
        take-append_left payload rest (length payload) refl,
      )
      (ground arith)

-- A payload past 64 MB and below 2 ^ 32 bytes is framed all the same, and read back as corruption.
pub parse_record_oversized :
    (before payload rest : Bytes)
    → max_payload_bytes < length payload
    → length payload < 2 ^ 32
    → parse_record (before ++ (frame payload ++ rest)) (length before) ≡ corrupt
unfolding parse_record
parse_record_oversized before payload rest h small =
    rw
      (
        length_field before payload rest small,
        crc_field before payload rest small,
        body_field before payload rest small,
        length-buffer before payload rest small,
      )
      (ground arith)

-- A parse that succeeds moves forward by the header and the payload, and stays in the buffer.
pub parse_record_bounds :
    (buffer : Bytes) (offset : ℕ) {payload : Bytes} {next : ℕ}
    → parse_record buffer offset ≡ parsed payload next
    → (next ≡ offset + 8 + length payload)
      × (next ≤ length buffer)
      × (length payload ≤ max_payload_bytes)
unfolding parse_record
parse_record_bounds buffer offset h =
    let len = read_little_endian32 buffer offset in
    ground (arith, length-take len (drop (offset + 8) buffer), length-drop (offset + 8) buffer)

take-frame :
    (payload : Bytes) (m : ℕ)
    → length payload < 2 ^ 32
    → take (8 + m) (frame payload)
      ≡ little_endian32 (length payload) ++ (little_endian32 (crc32 payload) ++ take m payload)
unfolding frame
take-frame payload m h =
    let e : length payload % 2 ^ 32 ≡ length payload = omega arith in
    let header = little_endian32 (length payload) ++ little_endian32 (crc32 payload) in
    rw (e, ← append_assoc, ← append_assoc)
      (take-append_right header payload m (8 + m) (unfold little_endian32 in refl))

-- A record of at most 64 MB that is cut anywhere before its end is reported as incomplete.
pub parse_record_torn :
    (before payload : Bytes) (n : ℕ)
    → length payload ≤ max_payload_bytes
    → n < length (frame payload)
    → parse_record (before ++ take n (frame payload)) (length before) ≡ incomplete
unfolding parse_record
parse_record_torn before payload n small torn = elim (Bool-cases (ltb n 8)) [
  | inl short ↦ ground (
    arith,
    length-append before (take n (frame payload)),
    length-take n (frame payload),
    length-frame payload,
  )
  | inr header ↦
      let e : n ≡ 8 + (n - 8) = ground arith in
      let field =
        read-little_endian32 before (little_endian32 (crc32 payload) ++ take (n - 8) payload)
          (length payload) (length before) (omega arith) refl in
      ground (
        arith,
        length-append before (take n (frame payload)),
        length-take n (frame payload),
        length-frame payload,
        ap (λ (m : ℕ). take m (frame payload)) e,
        take-frame payload (n - 8) (omega arith),
        field,
      )
]
