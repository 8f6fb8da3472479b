-- ===== src/Base/Decimal.antt =====
-- `str(n)` of a natural number, by well-founded division by ten.
use Prim.Native.Nat.{ℕ, zero, suc, ◌+◌, ◌-◌, ◌*◌, ◌/◌, ◌%◌, ◌≤◌, ◌<◌}
use mathlib.Core.Path.{◌≡◌, refl}
use mathlib.Core.Logic.{inl, inr}
use mathlib.Core.List.{[], ◌∷◌, ◌++◌}
use native.Mathlib.Omega.{arith}
use native.Mathlib.Numerals.{add-one}
use price_checker.Base.Tests.{Bool-cases, ltb, if◌then◌else◌}
use price_checker.Base.Texts.{Text}
use price_checker.Base.Lists.{All}

-- The digits of `n` before `out`; the fuel is one more than the number of digits at most.
digits : ℕ → ℕ → Text → Text
digits zero n out = out
digits (suc fuel) n out =
    let more = digits fuel (n / 10) ((b'0' + n % 10) ∷ out) in
    if ltb n 10 then (b'0' + n) ∷ out else more

-- `n` has at most `n + 1` digits, so the fuel is enough.
pub str_int : ℕ → Text
unfolding digits
str_int n = digits (n + 1) n []

-- A print read back, with the digits before it in `acc`.
abbrev pub value : ℕ → Text → ℕ
value acc [] = acc
value acc (c ∷ s) = value (acc * 10 + (c - b'0')) s

value-digits : (fuel n : ℕ) (out : Text) → n < fuel → value 0 (digits fuel n out) ≡ value n out
unfolding digits
value-digits zero n out h = absurd (omega arith)
value-digits (suc fuel) n out h = ground (arith, value-digits fuel (n / 10) ((b'0' + n % 10) ∷ out))

pub value-str_int : (n : ℕ) → value 0 (str_int n) ≡ n
unfolding str_int
value-str_int n = value-digits (n + 1) n [] (omega arith)

-- Two numbers with the same print are equal.
pub str_int_injective : (m n : ℕ) → str_int m ≡ str_int n → m ≡ n
str_int_injective m n h = cc (value-str_int m, value-str_int n)

abbrev pub IsDigit : ℕ → Type 0
IsDigit c = (b'0' ≤ c) × (c ≤ b'9')

digits-All : (fuel n : ℕ) (out : Text) → All IsDigit out → All IsDigit (digits fuel n out)
unfolding digits
digits-All zero n out h = h
digits-All (suc fuel) n out h = ground (arith, digits-All fuel (n / 10) ((b'0' + n % 10) ∷ out))

-- A print has digits only.
pub str_int-All : (n : ℕ) → All IsDigit (str_int n)
unfolding str_int
str_int-All n = digits-All (n + 1) n [] tt

-- Text before the first separator: where both parts before a non-digit are digits, they agree.
pub digits_before :
    (sep : ℕ) (p q s t : Text)
    → b'9' < sep
    → All IsDigit p
    → All IsDigit q
    → p ++ sep ∷ s ≡ q ++ sep ∷ t
    → (p ≡ q) × (s ≡ t)
digits_before sep [] [] s t big hp hq e = ground arith
digits_before sep [] (d ∷ q) s t big hp hq e = ground arith
digits_before sep (c ∷ p) [] s t big hp hq e = ground arith
digits_before sep (c ∷ p) (d ∷ q) s t big hp hq e = ground (arith, digits_before sep p q s t big)

still_nonempty :
    (fuel n c : ℕ) (out : Text) → (d : ℕ) × (s : Text) × (digits fuel n (c ∷ out) ≡ d ∷ s)
unfolding digits
still_nonempty zero n c out = (c, out, refl)
still_nonempty (suc fuel) n c out = elim (Bool-cases (ltb n 10)) [
  | inl small ↦ (b'0' + n, c ∷ out, rw small refl)
  | inr big ↦
      (let (d, s, e) = still_nonempty fuel (n / 10) (b'0' + n % 10) (c ∷ out) in (d, s, rw big e))
]

-- A print is not empty.
pub str_int-cons : (n : ℕ) → (d : ℕ) × (s : Text) × (str_int n ≡ d ∷ s)
unfolding str_int digits
str_int-cons n = elim (Bool-cases (ltb n 10)) [
  | inl small ↦ (b'0' + n, [], ground arith)
  | inr big ↦
      (let (d, s, e) = still_nonempty n (n / 10) (b'0' + n % 10) [] in
        let unfold_one : digits (suc n) n [] ≡ d ∷ s = rw big e in
        (d, s, rw (add-one n) unfold_one))
]
