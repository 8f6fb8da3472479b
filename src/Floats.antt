-- ===== src/Floats.antt =====
-- What backend/app does with Python's `float`, the doubles of IEEE 754, and with `decimal`, as a
-- parameter. None of the numbers is negative. Every natural number below 2^53 is a double.
use price_checker.Base.{ℕ, ◌+◌, ◌*◌, ◌/◌, ◌<◌, ◌≡◌, Bool, ltb, Option, some, Text, codes, str_int}

-- 2 ^ 53
abbrev pub exact_limit : ℕ
exact_limit = 9007199254740992

-- 10 ^ 12
abbrev pub decimal_limit : ℕ
decimal_limit = 1000000000000

pub record Floats (F : Type 0) : Type 0 where
  -- `float(s)` of decimal digits, with a point or without
  pub of_text : Text → F
  -- `float(n)`, where `none` is an `OverflowError`
  pub of_nat : ℕ → Option F
  -- `int(x)`, where `none` is an `OverflowError`
  pub truncate : F → Option ℕ
  -- `x * y` and `x / y`
  pub times : F → F → F
  pub over : F → F → F
  -- `0 < x`
  pub positive : F → Bool
  -- `x <= y`
  pub le : F → F → Bool
  -- `Decimal(str(x)).quantize(Decimal("0.01"), rounding=ROUND_HALF_UP)` in hundredths, where
  -- `none` is an `InvalidOperation`
  pub cents : F → Option ℕ
  -- `(Decimal(p) / Decimal(n)).quantize(Decimal("0.01"), rounding=ROUND_HALF_UP)` in hundredths
  pub quotient_cents : ℕ → ℕ → Option ℕ
  -- The 28 digits of a quotient are enough for numbers of up to 12.
  pub quotient_cents-Rounded :
      (p n : ℕ)
      → p < decimal_limit
      → 0 < n
      → n < decimal_limit
      → quotient_cents p n ≡ some ((200 * p + n) / (2 * n))
  pub truncate-of_text : (n : ℕ) → n < exact_limit → truncate (of_text (str_int n)) ≡ some n
  pub exact : ℕ → F
  pub of_nat-exact : (n : ℕ) → n < exact_limit → of_nat n ≡ some (exact n)
  pub positive-exact : (n : ℕ) → n < exact_limit → positive (exact n) ≡ ltb 0 n
  pub times-one : (n : ℕ) → n < exact_limit → times (exact n) (of_text (codes "1.0")) ≡ exact n
