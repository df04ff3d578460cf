-- ===== src/Protocol/Commands/Markers.antt =====
-- The markers of a transaction carry its number, and neither a marker nor a command is taken for
-- another kind of payload.
use Prim.Native.Nat.{bit_and, bit_or}
use key_value_store.Common.{
  ℕ, ◌+◌, ◌*◌, ◌/◌, ◌%◌, ◌^◌, ◌<◌, ◌≡◌, ◌∷◌, refl, some, none, length, arith, bit_or_shifted,
  bit_and_mask,
}
use key_value_store.Protocol.Commands.{
  commit_tag, begin_tag, Command, set_command, del_command, serialize, u64_bytes,
  serialize_begin_marker, serialize_commit_marker, marker_value, parse_marker, parse_begin_marker,
  parse_commit_marker, deserialize_command,
}

pub length-u64_bytes : (v : ℕ) → length (u64_bytes v) ≡ 8
unfolding u64_bytes
length-u64_bytes v = refl

-- One round of `parseMarker` puts the byte of `v` at bit `k` on top of the bits below.
marker_round :
    (k v : ℕ)
    → v % 2 ^ k < 2 ^ k
    → v / 2 ^ k % 256 * 2 ^ k % 2 ^ 64 ≡ v / 2 ^ k % 256 * 2 ^ k
    → v % 2 ^ k + v / 2 ^ k % 256 * 2 ^ k ≡ v % 2 ^ (k + 8)
    → bit_or (v % 2 ^ k) (bit_and (v / 2 ^ k) 255 * 2 ^ k % 2 ^ 64) ≡ v % 2 ^ (k + 8)
marker_round k v low high sum =
    rw (bit_and_mask 8 (v / 2 ^ k), high, bit_or_shifted k (v % 2 ^ k) (v / 2 ^ k % 256) low) sum

marker_value-u64_bytes : (tag v : ℕ) → v < 2 ^ 64 → marker_value 8 0 (tag ∷ u64_bytes v) 0 ≡ v
unfolding marker_value u64_bytes
marker_value-u64_bytes tag v h =
    let nothing : v % 2 ^ 0 ≡ 0 = omega arith in
    let first = rw nothing at (marker_round 0 v (omega arith) (omega arith) (omega arith)) in
    rw
      (
        first,
        marker_round 8 v (omega arith) (omega arith) (omega arith),
        marker_round 16 v (omega arith) (omega arith) (omega arith),
        marker_round 24 v (omega arith) (omega arith) (omega arith),
        marker_round 32 v (omega arith) (omega arith) (omega arith),
        marker_round 40 v (omega arith) (omega arith) (omega arith),
        marker_round 48 v (omega arith) (omega arith) (omega arith),
        marker_round 56 v (omega arith) (omega arith) (omega arith),
      )
      (omega arith)

-- The begin marker of a transaction below 2 ^ 64 is read back as that transaction, not as a commit
-- marker and not as a command.
pub begin_marker_reads :
    (v : ℕ)
    → v < 2 ^ 64
    → (parse_begin_marker (serialize_begin_marker v) ≡ some v)
      × (parse_commit_marker (serialize_begin_marker v) ≡ none)
      × (deserialize_command (serialize_begin_marker v) ≡ none)
unfolding parse_begin_marker parse_commit_marker serialize_begin_marker parse_marker
    deserialize_command
begin_marker_reads v h =
    (rw (length-u64_bytes v, marker_value-u64_bytes begin_tag v h), rw (length-u64_bytes v), refl)

-- The commit marker of a transaction below 2 ^ 64 is read back as that transaction, not as a begin
-- marker and not as a command.
pub commit_marker_reads :
    (v : ℕ)
    → v < 2 ^ 64
    → (parse_begin_marker (serialize_commit_marker v) ≡ none)
      × (parse_commit_marker (serialize_commit_marker v) ≡ some v)
      × (deserialize_command (serialize_commit_marker v) ≡ none)
unfolding parse_begin_marker parse_commit_marker serialize_commit_marker parse_marker
    deserialize_command
commit_marker_reads v h =
    (rw (length-u64_bytes v), rw (length-u64_bytes v, marker_value-u64_bytes commit_tag v h), refl)

-- A serialized command is never read as a marker.
pub command_is_no_marker :
    (c : Command)
    → (parse_begin_marker (serialize c) ≡ none) × (parse_commit_marker (serialize c) ≡ none)
unfolding parse_begin_marker parse_commit_marker parse_marker serialize
command_is_no_marker (set_command key value) = (ground arith, ground arith)
command_is_no_marker (del_command key) = (ground arith, ground arith)
