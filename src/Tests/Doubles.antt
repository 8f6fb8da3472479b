-- ===== src/Tests/Doubles.antt =====
-- Numbers without fractions, in place of the doubles.
use price_checker.Base.{
  ℕ, ◌+◌, ◌*◌, ◌/◌, ltb, leb, ◌==◌, ◌≡◌, refl, ap, ◌∙◌, arith, some, [], ◌∷◌, Text, value,
  value-str_int, str_int, str_int-All, All, IsDigit, if◌then◌else◌,
}
use price_checker.Floats.{Floats}

abbrev pub whole_part : Text → Text
whole_part [] = []
whole_part (c ∷ s) = if c == b'.' then [] else c ∷ whole_part s

whole_part_digits : (s : Text) → All IsDigit s → whole_part s ≡ s
whole_part_digits [] h = refl
whole_part_digits (c ∷ s) h = ground (arith, whole_part_digits s h.1)

abbrev pub of_text : Text → ℕ
of_text s = value 0 (whole_part s)

pub of_text-str_int : (n : ℕ) → of_text (str_int n) ≡ n
of_text-str_int n = ap (value 0) (whole_part_digits (str_int n) (str_int-All n)) ∙ value-str_int n

abbrev pub whole : Floats ℕ
whole = record {
  of_text = of_text;
  of_nat = λ n. some n;
  truncate = λ x. some x;
  times = λ x y. x * y;
  over = λ x y. x / y;
  positive = λ x. ltb 0 x;
  le = leb;
  cents = λ x. some (x * 100);
  quotient_cents = λ p n. some ((200 * p + n) / (2 * n));
  quotient_cents-Rounded = λ p n _ _ _. refl;
  truncate-of_text = λ n _. ap (λ m. some m) (of_text-str_int n);
  exact = λ n. n;
  of_nat-exact = λ n _. refl;
  positive-exact = λ n _. refl;
  times-one = λ n _. omega arith;
}
