-- ===== src/Common/Decimal.antt =====
-- `std::to_string` of an unsigned number of 64 bits, which has at most 20 digits.
use Prim.Native.Nat.{ℕ, zero, suc, ◌+◌, ◌/◌, ◌%◌}
use mathlib.Core.List.{[], ◌∷◌}
use key_value_store.Common.Tests.{ltb, if◌then◌else◌}
use key_value_store.Common.ByteString.{Bytes}

-- The digits of `n` in front of `behind`.
unfoldable pub decimal_before : ℕ → ℕ → Bytes → Bytes
decimal_before zero n behind = behind
decimal_before (suc fuel) n behind =
    let here = (48 + n % 10) ∷ behind in
    let rest = decimal_before fuel (n / 10) here in if ltb n 10 then here else rest

unfoldable pub to_string : ℕ → Bytes
unfolding decimal_before
to_string n = decimal_before 20 n []
