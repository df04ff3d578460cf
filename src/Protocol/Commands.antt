-- ===== src/Protocol/Commands.antt =====
-- src/protocol/command.cpp and commands.cpp: the commands that the log holds, and the markers of a
-- transaction. Offsets are those of a `std::string`, far below 2 ^ 64.
pub mod RoundTrip
pub mod Markers
use Prim.Native.Nat.{bit_and, bit_or}
use key_value_store.Store.Mutation.{Mutation}
use key_value_store.Common.{
  ◌>>=◌, ℕ, zero, suc, ◌+◌, ◌*◌, ◌/◌, ◌%◌, ◌^◌, Bool, true, false, ◌||◌, List, [], ◌∷◌, ◌++◌,
  Option, none, some, Bytes, length, get_or, take, drop, ltb, ◌==◌, if◌then◌else◌, not,
}

abbrev pub set_tag : ℕ
set_tag = b's'

abbrev pub del_tag : ℕ
del_tag = b'd'

abbrev pub begin_tag : ℕ
begin_tag = b'b'

abbrev pub commit_tag : ℕ
commit_tag = b'c'

-- `SetCommand` and `DelCommand`.
pub data Command : Type 0 where
  set_command : Bytes → Bytes → Command
  del_command : Bytes → Command

-- The bytes that `appendU32` pushes.
unfoldable pub u32_bytes : ℕ → Bytes
u32_bytes value =
    bit_and value 0xFF
    ∷ bit_and (value / 2 ^ 8) 0xFF
    ∷ bit_and (value / 2 ^ 16) 0xFF
    ∷ bit_and (value / 2 ^ 24) 0xFF
    ∷ []

-- What `appendBlob` appends.
unfoldable pub blob_bytes : Bytes → Bytes
blob_bytes blob = u32_bytes (length blob % 2 ^ 32) ++ blob

-- `for (shift = 0; shift < 64; shift += 8)` from `shift` on, with the count of rounds left.
unfoldable pub u64_bytes_from : ℕ → ℕ → ℕ → Bytes
u64_bytes_from zero shift value = []
u64_bytes_from (suc n) shift value =
    bit_and (value / 2 ^ shift) 0xFF ∷ u64_bytes_from n (shift + 8) value

-- The bytes that `appendU64` pushes.
unfoldable pub u64_bytes : ℕ → Bytes
unfolding u64_bytes_from
u64_bytes value = u64_bytes_from 8 0 value

unfoldable pub serialize : Command → Bytes
serialize (set_command key value) = set_tag ∷ (blob_bytes key ++ blob_bytes value)
serialize (del_command key) = del_tag ∷ blob_bytes key

unfoldable pub to_mutation : Command → Mutation
to_mutation (set_command key value) = record { erase = false; key = key; value = value }
to_mutation (del_command key) = record { erase = true; key = key; value = [] }

unfoldable pub serialize_begin_marker : ℕ → Bytes
serialize_begin_marker txn_id = begin_tag ∷ u64_bytes txn_id

unfoldable pub serialize_commit_marker : ℕ → Bytes
serialize_commit_marker txn_id = commit_tag ∷ u64_bytes txn_id

-- The loop of `parseMarker` at index `i`, with the count of rounds left.
unfoldable pub marker_value : ℕ → ℕ → Bytes → ℕ → ℕ
marker_value zero i payload value = value
marker_value (suc n) i payload value =
    marker_value n (i + 1) payload (bit_or value (get_or payload (1 + i) 0 * 2 ^ (i * 8) % 2 ^ 64))

unfoldable pub parse_marker : Bytes → ℕ → Option ℕ
unfolding marker_value
parse_marker payload expected_tag =
    if not (length payload == 9) || not (get_or payload 0 0 == expected_tag)
    then none
    else some (marker_value 8 0 payload 0)

unfoldable pub parse_begin_marker : Bytes → Option ℕ
parse_begin_marker payload = parse_marker payload begin_tag

unfoldable pub parse_commit_marker : Bytes → Option ℕ
parse_commit_marker payload = parse_marker payload commit_tag

-- The value and the new offset, or `none` for `false`.
unfoldable pub read_u32 : Bytes → ℕ → Option (ℕ × ℕ)
read_u32 bytes offset =
    if ltb (length bytes) (offset + 4)
    then none
    else some (
      bit_or
          (bit_or (bit_or (get_or bytes offset 0) (get_or bytes (offset + 1) 0 * 2 ^ 8))
            (get_or bytes (offset + 2) 0 * 2 ^ 16))
          (get_or bytes (offset + 3) 0 * 2 ^ 24),
      offset + 4,
    )

-- The blob and the new offset, or `none` for `false`.
unfoldable pub read_blob : Bytes → ℕ → Option (Bytes × ℕ)
read_blob bytes offset = do
  (len, start) ← read_u32 bytes offset
  if ltb (length bytes) (start + len) then none else some (take len (drop start bytes), start + len)

unfoldable pub deserialize_set : Bytes → Option Command
deserialize_set payload = do
  (key, middle) ← read_blob payload 1
  (value, end) ← read_blob payload middle
  if not (end == length payload) then none else some (set_command key value)

unfoldable pub deserialize_del : Bytes → Option Command
deserialize_del payload = do
  (key, end) ← read_blob payload 1
  if not (end == length payload) then none else some (del_command key)

-- `nullptr` is `none`.
unfoldable pub deserialize_command : Bytes → Option Command
deserialize_command [] = none
deserialize_command (tag ∷ rest) =
    if tag == set_tag
    then deserialize_set (tag ∷ rest)
    else if tag == del_tag
    then deserialize_del (tag ∷ rest)
    else none
