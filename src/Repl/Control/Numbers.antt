-- ===== src/Repl/Control/Numbers.antt =====
-- Numbers that are printed with `std::to_string` and read with `std::stoull`.
use key_value_store.Common.{
  sym, ℕ, zero, suc, ◌+◌, ◌*◌, ◌-◌, ◌^◌, ◌/◌, ◌%◌, ◌<◌, ◌≤◌, ◌≡◌, refl, ap, ◌∙◌, true, false, [],
  ◌∷◌, ◌++◌, some, Bytes, length, All, ◌==◌, ltb, arith, Bool-cases, inl, inr, to_string,
  decimal_before,
}
use key_value_store.Net.Lines.{strip_return}
use key_value_store.Repl.Control.{
  is_space, is_digit, digits_value, unsigned_digits, signed_digits, stoull,
}
use key_value_store.Repl.Control.Words.{IsWord}

digit_of : (n : ℕ) → is_digit (48 + n % 10) ≡ true
digit_of n = ground arith

decimal_before-small :
    (fuel n : ℕ) (behind : Bytes)
    → n < 10
    → decimal_before (suc fuel) n behind ≡ (48 + n % 10) ∷ behind
unfolding decimal_before
decimal_before-small fuel n behind h = ground (arith, h)

decimal_before-large :
    (fuel n : ℕ) (behind : Bytes)
    → 10 ≤ n
    → decimal_before (suc fuel) n behind ≡ decimal_before fuel (n / 10) ((48 + n % 10) ∷ behind)
unfolding decimal_before
decimal_before-large fuel n behind h = ground (arith, h)

digits_value_front :
    (m n : ℕ) (behind : Bytes)
    → digits_value m ((48 + n % 10) ∷ behind) ≡ digits_value (m * 10 + n % 10) behind
unfolding digits_value
digits_value_front m n behind =
    let kept : (48 + n % 10) - 48 ≡ n % 10 = omega arith in rw (digit_of n, kept) refl

-- The digits in front of `behind` are read as the number.
digits_value-decimal_before :
    (fuel n : ℕ) (behind : Bytes)
    → n < 10 ^ suc fuel
    → digits_value 0 (decimal_before (suc fuel) n behind) ≡ digits_value n behind
digits_value-decimal_before zero n behind h =
    let small : 0 * 10 + n % 10 ≡ n = omega (arith, h) in
    ap (digits_value 0) (decimal_before-small 0 n behind h)
    ∙ (digits_value_front 0 n behind ∙ ap (λ m. digits_value m behind) small)
digits_value-decimal_before (suc fuel) n behind h = elim (Bool-cases (ltb n 10)) [
  | inl e ↦
      let below : n < 10 = ground (arith, e) in
      let small : 0 * 10 + n % 10 ≡ n = omega (arith, below) in
      ap (digits_value 0) (decimal_before-small (suc fuel) n behind below)
      ∙ (digits_value_front 0 n behind ∙ ap (λ m. digits_value m behind) small)
  | inr e ↦
      let above : 10 ≤ n = ground (arith, e) in
      let back : n / 10 * 10 + n % 10 ≡ n = omega arith in
      ap (digits_value 0) (decimal_before-large (suc fuel) n behind above)
      ∙ (digits_value-decimal_before fuel (n / 10) ((48 + n % 10) ∷ behind) (omega (arith, h))
          ∙ (digits_value_front (n / 10) n behind ∙ ap (λ m. digits_value m behind) back))
]

abbrev AllDigits : Bytes → Type 0
AllDigits = All (λ c. is_digit c ≡ true)

decimal_before-Digits :
    (fuel n : ℕ) (behind : Bytes)
    → AllDigits behind
    → AllDigits (decimal_before fuel n behind)
      × (length (decimal_before fuel n behind) ≤ fuel + length behind)
unfolding decimal_before
decimal_before-Digits zero n behind h = (h, omega arith)
decimal_before-Digits (suc fuel) n behind h = elim (Bool-cases (ltb n 10)) [
  | inl e ↦
      rw (decimal_before-small fuel n behind (ground (arith, e)), decimal_before)
        ((digit_of n, h), omega arith)
  | inr e ↦
      let (digits, short) =
        decimal_before-Digits fuel (n / 10) ((48 + n % 10) ∷ behind) (digit_of n, h) in
      rw (decimal_before-large fuel n behind (ground (arith, e)), decimal_before)
        (digits, omega (arith, short))
]

decimal_before-longer :
    (fuel n : ℕ) (behind : Bytes) → length behind ≤ length (decimal_before fuel n behind)
unfolding decimal_before
decimal_before-longer zero n behind = omega arith
decimal_before-longer (suc fuel) n behind =
    let rest = decimal_before-longer fuel (n / 10) ((48 + n % 10) ∷ behind) in
    elim (Bool-cases (ltb n 10)) [
      | inl e ↦
          rw (decimal_before-small fuel n behind (ground (arith, e)), decimal_before) (omega arith)
      | inr e ↦
          rw (decimal_before-large fuel n behind (ground (arith, e)), decimal_before)
            (omega (arith, rest))
    ]

to_string-AllDigits : (n : ℕ) → AllDigits (to_string n) × (length (to_string n) ≤ 20)
unfolding to_string
to_string-AllDigits n = decimal_before-Digits 20 n [] tt

to_string-length : (n : ℕ) → 1 ≤ length (to_string n)
unfolding to_string decimal_before
to_string-length n = ground (arith, decimal_before-longer 19 (n / 10) ((48 + n % 10) ∷ []))

to_string-digits_value : (n : ℕ) → n < 2 ^ 64 → digits_value 0 (to_string n) ≡ n
unfolding to_string digits_value
to_string-digits_value n h = digits_value-decimal_before 19 n [] (omega (arith, h))

digits_value_digit :
    (m c : ℕ) (text : Bytes)
    → is_digit c ≡ true
    → digits_value m (c ∷ text) ≡ digits_value (m * 10 + (c - 48)) text
unfolding digits_value
digits_value_digit m c text e = rw (e) refl

-- A number of digits alone is read by its value.
stoull-digits :
    (text : Bytes) (n : ℕ)
    → AllDigits text
    → 1 ≤ length text
    → digits_value 0 text ≡ n
    → n < 2 ^ 64
    → stoull text ≡ some n
unfolding stoull signed_digits unsigned_digits
stoull-digits [] n digits h value small = absurd (omega (arith, h))
stoull-digits (c ∷ text) n (digit, digits) h value small =
    let above : 48 ≤ c = ground (arith, digit) in
    let no_space : is_space c ≡ false = ground (arith, above) in
    let no_plus : (c == 43) ≡ false = ground (arith, above) in
    let no_minus : (c == 45) ≡ false = ground (arith, above) in
    let fits : ltb n (2 ^ 64) ≡ true = ground (arith, small) in
    let value' : digits_value (0 * 10 + (c - 48)) text ≡ n =
      sym (digits_value_digit 0 c text digit) ∙ value in
    rw (no_space, no_plus, no_minus, digit, value', fits) refl

pub stoull-to_string : (n : ℕ) → n < 2 ^ 64 → stoull (to_string n) ≡ some n
stoull-to_string n h =
    stoull-digits (to_string n) n (to_string-AllDigits n).0 (to_string-length n)
      (to_string-digits_value n h) h

digits-IsWord : (text : Bytes) → AllDigits text → IsWord text
digits-IsWord [] h = (tt, tt)
digits-IsWord (c ∷ text) (digit, digits) =
    let above : 48 ≤ c = ground (arith, digit) in
    let (spaces, newlines) = digits-IsWord text digits in
    ((ground (arith, above), spaces), (ground (arith, above), newlines))

pub to_string-IsWord : (n : ℕ) → IsWord (to_string n) × (length (to_string n) ≤ 20)
to_string-IsWord n =
    let (digits, short) = to_string-AllDigits n in (digits-IsWord (to_string n) digits, short)

ends_in_digit : (d : ℕ) (text : Bytes) → AllDigits (d ∷ text) → strip_return (d ∷ text) ≡ d ∷ text
unfolding strip_return
ends_in_digit d [] (digit, digits) = ground (arith, digit)
ends_in_digit d (c ∷ text) (digit, digits) = ap (◌∷◌ d) (ends_in_digit c text digits)

-- Nothing is stripped behind a number.
pub strip_return-to_string :
    (text : Bytes) (n : ℕ) → strip_return (text ++ to_string n) ≡ text ++ to_string n
unfolding strip_return
strip_return-to_string text n =
    behind text (to_string n) (to_string-AllDigits n).0 (to_string-length n)
  where
    behind :
        (text digits : Bytes)
        → AllDigits digits
        → 1 ≤ length digits
        → strip_return (text ++ digits) ≡ text ++ digits
    behind [] [] h h' = refl
    behind [] (d ∷ digits) h h' = ends_in_digit d digits h
    behind (c ∷ []) [] h h' = absurd (omega (arith, h'))
    behind (c ∷ []) (d ∷ digits) h h' = ap (◌∷◌ c) (ends_in_digit d digits h)
    behind (c ∷ d ∷ text) digits h h' = ap (◌∷◌ c) (behind (d ∷ text) digits h h')
