-- ===== src/Common/Maps.antt =====
-- `std::unordered_map<std::string, V>` as an association list. The order of its elements is not
-- specified; no result of the development depends on it.
use Prim.Native.Nat.{◌+◌}
use mathlib.Core.Path.{◌≡◌, refl}
use mathlib.Core.Option.{Option, none, some}
use key_value_store.Common.Lists.{length}
use mathlib.Core.List.{List, [], ◌∷◌}
use native.Mathlib.Omega.{arith}
use key_value_store.Common.Tests.{if◌then◌else◌}
use key_value_store.Common.ByteString.{Bytes, bytes_eq, bytes_eq_iff, bytes_eq_refl}

abbrev pub KeyMap {ℓ} : Type ℓ → Type ℓ
KeyMap V = List (Bytes × V)

module _ {ℓ} {V : Type ℓ} where
  -- `find`: the value, or `none` for `end()`.
  unfoldable pub find : Bytes → KeyMap V → Option V
  find k [] = none
  find k ((j, v) ∷ m) = if bytes_eq j k then some v else find k m

  -- `m[k] = v`
  unfoldable pub assign : Bytes → V → KeyMap V → KeyMap V
  assign k v [] = (k, v) ∷ []
  assign k v ((j, w) ∷ m) = if bytes_eq j k then (j, v) ∷ m else (j, w) ∷ assign k v m

  -- `erase(k)`
  unfoldable pub erase : Bytes → KeyMap V → KeyMap V
  erase k [] = []
  erase k ((j, v) ∷ m) = let rest = erase k m in if bytes_eq j k then rest else (j, v) ∷ rest

  pub find-assign :
      (k j : Bytes) (v : V) (m : KeyMap V)
      → find j (assign k v m) ≡ (if bytes_eq k j then some v else find j m)
  unfolding find assign
  find-assign k j v [] = refl
  find-assign k j v ((i, w) ∷ m) =
      ground (arith, bytes_eq_iff k j, bytes_eq_iff i k, bytes_eq_iff i j, find-assign k j v m)

  pub find-erase :
      (k j : Bytes) (m : KeyMap V) → find j (erase k m) ≡ (if bytes_eq k j then none else find j m)
  unfolding find erase
  find-erase k j [] = ground arith
  find-erase k j ((i, w) ∷ m) =
      ground (arith, bytes_eq_iff k j, bytes_eq_iff i k, bytes_eq_iff i j, find-erase k j m)

  pub find-assign_self : (k : Bytes) (v : V) (m : KeyMap V) → find k (assign k v m) ≡ some v
  find-assign_self k v m = simp (find-assign, bytes_eq_refl)

  pub find-erase_self : (k : Bytes) (m : KeyMap V) → find k (erase k m) ≡ none
  find-erase_self k m = simp (find-erase, bytes_eq_refl)

  -- No key twice.
  abbrev pub IsDistinct : KeyMap V → Type ℓ
  IsDistinct [] = Unit {ℓ}
  IsDistinct ((k, v) ∷ m) = (find k m ≡ none) × IsDistinct m

  pub IsDistinct-assign :
      (k : Bytes) (v : V) (m : KeyMap V) → IsDistinct m → IsDistinct (assign k v m)
  unfolding assign
  IsDistinct-assign k v [] d = (unfold find in refl, tt)
  IsDistinct-assign k v ((i, w) ∷ m) d =
      ground
        (arith, bytes_eq_iff i k, bytes_eq_iff k i, find-assign k i v m, IsDistinct-assign k v m)

  pub IsDistinct-erase : (k : Bytes) (m : KeyMap V) → IsDistinct m → IsDistinct (erase k m)
  unfolding erase
  IsDistinct-erase k [] d = d
  IsDistinct-erase k ((i, w) ∷ m) d =
      ground (arith, bytes_eq_iff k i, find-erase k i m, IsDistinct-erase k m)

  pub erase_absent : (k : Bytes) (m : KeyMap V) → find k m ≡ none → erase k m ≡ m
  unfolding find erase
  erase_absent k [] h = refl
  erase_absent k ((j, w) ∷ m) h = ground (arith, erase_absent k m)

  pub length-erase :
      (k : Bytes) (v : V) (m : KeyMap V)
      → IsDistinct m
      → find k m ≡ some v
      → length (erase k m) + 1 ≡ length m
  unfolding find erase
  length-erase k v [] d h = ground arith
  length-erase k v ((j, w) ∷ m) d h =
      ground (arith, bytes_eq_iff j k, erase_absent k m, length-erase k v m d.1)

  -- A map in which no key is found is empty.
  pub nil_of_find : (m : KeyMap V) → ((k : Bytes) → find k m ≡ none) → m ≡ []
  unfolding find
  nil_of_find [] h = refl
  nil_of_find ((k, v) ∷ m) h = ground (arith, h k, bytes_eq_refl k)

pub ruleset map_laws = (find-assign, find-erase, bytes_eq_refl)
