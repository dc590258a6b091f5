-- ===== src/Text/Digits.antt =====
-- `Number.prototype.toString(radix)` and `padStart`, and that decimal prints tell numbers apart.
use trokk.Prelude.{
  ℕ, zero, suc, ◌+◌, ◌-◌, ◌*◌, ◌/◌, ◌%◌, ◌≤◌, ◌<◌, ◌≡◌, sym, ◌∙◌, ap, List, [], ◌∷◌, arith, ltb,
  if◌then◌else◌, length,
}

-- The digit characters of radix 36.
pub digit : ℕ → ℕ
digit d = if ltb d 10 then b'0' + d else b'a' + (d - 10)

-- The digits of a positive number in front of `out`. The number falls below the fuel.
to_radix_from : ℕ → ℕ → ℕ → List ℕ → List ℕ
to_radix_from zero radix n out = out
to_radix_from (suc f) radix n out =
    let more = to_radix_from f radix (n / radix) (digit (n % radix) ∷ out) in
    if ltb n radix then digit n ∷ out else more

unfoldable pub to_radix : ℕ → ℕ → List ℕ
unfolding to_radix_from digit
to_radix radix n = to_radix_from (suc n) radix n []

-- `String(n)` and `n` in a template
unfoldable pub decimal : ℕ → List ℕ
unfolding to_radix
decimal n = to_radix 10 n

fill_start : ℕ → ℕ → List ℕ → List ℕ
fill_start zero c s = s
fill_start (suc k) c s = c ∷ fill_start k c s

-- `s.padStart(width, c)`
unfoldable pub pad_start : ℕ → ℕ → List ℕ → List ℕ
unfolding fill_start
pad_start width c s = fill_start (width - length s) c s

-- The number that decimal digits spell behind `n`.
pub value : ℕ → List ℕ → ℕ
value n [] = n
value n (c ∷ s) = value (n * 10 + (c - b'0')) s

value-to_radix_from :
    (f n : ℕ) (out : List ℕ) → n < f → value 0 (to_radix_from f 10 n out) ≡ value n out
unfolding to_radix_from value digit
value-to_radix_from zero n out h = elim h [ ]
value-to_radix_from (suc f) n out h = ground (
  arith,
  value-to_radix_from f (n / 10) (digit (n % 10) ∷ out),
  ap (λ m. value m out) (last_digit n),
  ap (λ m. value m out) (one_digit n),
)
  where
    last_digit : (m : ℕ) → (m / 10) * 10 + (b'0' + m % 10 - b'0') ≡ m
    last_digit m = omega arith

    one_digit : (m : ℕ) → 0 * 10 + (b'0' + m - b'0') ≡ m
    one_digit m = omega arith

-- A decimal print reads back as the number.
pub value-decimal : (n : ℕ) → value 0 (decimal n) ≡ n
unfolding decimal value
value-decimal n = value-to_radix_from (suc n) n [] (omega arith)

pub decimal-injective : (m n : ℕ) → decimal m ≡ decimal n → m ≡ n
decimal-injective m n e = sym (value-decimal m) ∙ ap (value 0) e ∙ value-decimal n

-- Decimal digits only.
abbrev pub AreDigits : List ℕ → Type 0
AreDigits [] = Unit
AreDigits (c ∷ s) = (b'0' ≤ c) × (c ≤ b'9') × AreDigits s

to_radix_from-AreDigits :
    (f n : ℕ) (out : List ℕ) → AreDigits out → AreDigits (to_radix_from f 10 n out)
unfolding to_radix_from digit
to_radix_from-AreDigits zero n out h = h
to_radix_from-AreDigits (suc f) n out h =
    ground (arith, to_radix_from-AreDigits f (n / 10) (digit (n % 10) ∷ out))

pub decimal-AreDigits : (n : ℕ) → AreDigits (decimal n)
unfolding decimal
decimal-AreDigits n = to_radix_from-AreDigits (suc n) n [] tt
