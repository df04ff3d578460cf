-- ===== src/Common/Drops.antt =====
-- What is left of a list when its front is taken away.
use Prim.Native.Nat.{ℕ, zero, suc, ◌+◌, ◌≤◌}
use mathlib.Core.Path.{◌≡◌, refl, sym, ap, ◌∙◌}
use mathlib.Core.List.{List, [], ◌∷◌, ◌++◌}
use native.Mathlib.Omega.{arith}
use key_value_store.Common.Lists.{length, drop}

module _ {ℓ} {A : Type ℓ} where
  pub drop-append_le :
      (n : ℕ) (xs ys : List A) → n ≤ length xs → drop n (xs ++ ys) ≡ drop n xs ++ ys
  drop-append_le zero xs ys h = refl
  drop-append_le (suc n) [] ys h = absurd (omega arith)
  drop-append_le (suc n) (x ∷ xs) ys h = drop-append_le n xs ys (omega arith)

  drop_nil : (n : ℕ) → drop {A = A} n [] ≡ []
  drop_nil zero = refl
  drop_nil (suc n) = refl

  pub drop_add : (n c : ℕ) (xs : List A) → drop (n + c) xs ≡ drop c (drop n xs)
  drop_add zero c xs = ap (λ (m : ℕ). drop m xs) (omega arith)
  drop_add (suc n) c [] = drop_nil (suc n + c) ∙ sym (drop_nil c)
  drop_add (suc n) c (x ∷ xs) =
      let same : suc n + c ≡ suc (n + c) = omega arith in
      ap (λ (m : ℕ). drop m (x ∷ xs)) same ∙ drop_add n c xs

  pub drop_of_length-le : (n : ℕ) (xs : List A) → length xs ≤ n → drop n xs ≡ []
  drop_of_length-le n [] h = drop_nil n
  drop_of_length-le zero (x ∷ xs) h = absurd (omega arith)
  drop_of_length-le (suc n) (x ∷ xs) h = drop_of_length-le n xs (omega arith)

  -- Two ways to cut the same list: the longer front has the shorter one in front.
  pub append_split :
      (us vs xs ys : List A)
      → us ++ vs ≡ xs ++ ys
      → length us ≤ length xs
      → (w : List A) × (xs ≡ us ++ w) × (vs ≡ w ++ ys)
  append_split [] vs xs ys e h = (xs, refl, e)
  append_split (u ∷ us) vs [] ys e h = absurd (omega arith)
  append_split (u ∷ us) vs (x ∷ xs) ys e h =
      let (w, same, behind) = append_split us vs xs ys (cc) (omega arith) in (w, cc, behind)
