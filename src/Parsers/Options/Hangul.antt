-- ===== src/Parsers/Options/Hangul.antt =====
-- Plain counts in units that are written in Hangul, as `parse_option_text` of
-- backend/app/parsers/regex_parser.py reads them.
use price_checker.Base.{
  ℕ, ◌<◌, Bool, true, false, ◌&&◌, ◌≡◌, refl, arith, List, [], ◌∷◌, ◌++◌, Text, codes, any, leb,
  none, some, Unicode, str_int, All, All-map, text_eq,
}
use price_checker.Errors.{ok}
use price_checker.Floats.{Floats, exact_limit}
use price_checker.Regex.{step, runs}
use price_checker.Regex.First.{at, First, first}
use price_checker.Parsers.Units.{
  UnitCode, unit_of, weight_units, volume_units, count_units, find_unit,
}
use price_checker.Parsers.Patterns.{count_unit}
use price_checker.Parsers.Options.{ParseResult, rule, normal, parse_option_text}
use price_checker.Parsers.Options.Counts.{CountUnit, is_special, parse_count}

-- The units of `COUNT_UNIT_RE` that are written in Hangul.
abbrev pub hangul_units : List (Text × UnitCode)
hangul_units =
    (codes "개", UnitCode.ct)
    ∷ (codes "개입", UnitCode.ct)
    ∷ (codes "입", UnitCode.ct)
    ∷ (codes "팩", UnitCode.ct)
    ∷ (codes "세트", UnitCode.ct)
    ∷ (codes "박스", UnitCode.ct)
    ∷ (codes "묶음", UnitCode.ct)
    ∷ (codes "봉", UnitCode.ct)
    ∷ (codes "병", UnitCode.ct)
    ∷ (codes "캔", UnitCode.ct)
    ∷ (codes "롤", UnitCode.ct)
    ∷ (codes "장", UnitCode.sheet)
    ∷ (codes "매", UnitCode.sheet)
    ∷ []

abbrev is_hangul : ℕ → Bool
is_hangul c = leb 44032 c && leb c 55203

hangul_normal : (c : ℕ) → is_hangul c ≡ true → normal c ≡ c
hangul_normal c h = ground arith

module _ (u : Unicode) where
  -- What is looked up in lower case, as it is.
  known_unit :
      (w : Text) (unit : UnitCode × Text)
      → All (λ c. is_hangul c ≡ true) w
      → find_unit w weight_units ≡ none
      → find_unit w volume_units ≡ none
      → find_unit w count_units ≡ some unit
      → unit_of u w ≡ some unit
  unfolding unit_of
  known_unit w unit h weight volume count =
      rw (u.lower_none w (All-map _ _ w (λ c h. ground arith) h), weight, volume, count) refl

  hangul_unit :
      (c : ℕ) (w : Text) (base : UnitCode)
      → All (λ c. is_hangul c ≡ true) (c ∷ w)
      → unit_of u (c ∷ w) ≡ some (base, codes "1.0")
      → ((g : List (ℕ × Text)) → First u count_unit (at (c ∷ w ++ []) g) (at [] g))
      → any is_special (c ∷ w) ≡ false
      → CountUnit u (c ∷ w) base
  hangul_unit c w base h known chosen plain = record {
    known = known;
    chosen = chosen;
    no_decimal = u.hangul_not_decimal c (ground arith) (ground arith);
    no_space = u.hangul_not_space c (ground arith) (ground arith);
    plain = plain;
    same = All-map _ _ (c ∷ w) hangul_normal h;
    visible = All-map _ _ (c ∷ w) (λ c h. u.hangul_not_space c (ground arith) (ground arith)) h;
  }

  hangul-CountUnit : All (λ (x : Text × UnitCode). CountUnit u x.0 x.1) hangul_units
  unfolding runs step find_unit text_eq
  hangul-CountUnit = (
    hangul_unit 44060 (codes "") UnitCode.ct (refl, tt)
        (known_unit (codes "개") (UnitCode.ct, codes "1.0") (refl, tt) refl refl refl)
        (λ g. first u _ refl) refl,
    (
      hangul_unit 44060 (codes "입") UnitCode.ct (refl, (refl, tt))
          (known_unit (codes "개입") (UnitCode.ct, codes "1.0") (refl, (refl, tt)) refl refl refl)
          (λ g. first u _ refl) refl,
      (
        hangul_unit 51077 (codes "") UnitCode.ct (refl, tt)
            (known_unit (codes "입") (UnitCode.ct, codes "1.0") (refl, tt) refl refl refl)
            (λ g. first u _ refl) refl,
        (
          hangul_unit 54057 (codes "") UnitCode.ct (refl, tt)
              (known_unit (codes "팩") (UnitCode.ct, codes "1.0") (refl, tt) refl refl refl)
              (λ g. first u _ refl) refl,
          (
            hangul_unit 49464 (codes "트") UnitCode.ct (refl, (refl, tt))
                (known_unit (codes "세트") (UnitCode.ct, codes "1.0") (refl, (refl, tt)) refl refl
                  refl)
                (λ g. first u _ refl) refl,
            (
              hangul_unit 48149 (codes "스") UnitCode.ct (refl, (refl, tt))
                  (known_unit (codes "박스") (UnitCode.ct, codes "1.0") (refl, (refl, tt)) refl refl
                    refl)
                  (λ g. first u _ refl) refl,
              (
                hangul_unit 47926 (codes "음") UnitCode.ct (refl, (refl, tt))
                    (known_unit (codes "묶음") (UnitCode.ct, codes "1.0") (refl, (refl, tt)) refl refl
                      refl)
                    (λ g. first u _ refl) refl,
                (
                  hangul_unit 48393 (codes "") UnitCode.ct (refl, tt)
                      (known_unit (codes "봉") (UnitCode.ct, codes "1.0") (refl, tt) refl refl refl)
                      (λ g. first u _ refl) refl,
                  (
                    hangul_unit 48337 (codes "") UnitCode.ct (refl, tt)
                        (known_unit (codes "병") (UnitCode.ct, codes "1.0") (refl, tt) refl refl
                          refl)
                        (λ g. first u _ refl) refl,
                    (
                      hangul_unit 52884 (codes "") UnitCode.ct (refl, tt)
                          (known_unit (codes "캔") (UnitCode.ct, codes "1.0") (refl, tt) refl refl
                            refl)
                          (λ g. first u _ refl) refl,
                      (
                        hangul_unit 47204 (codes "") UnitCode.ct (refl, tt)
                            (known_unit (codes "롤") (UnitCode.ct, codes "1.0") (refl, tt) refl refl
                              refl)
                            (λ g. first u _ refl) refl,
                        (
                          hangul_unit 51109 (codes "") UnitCode.sheet (refl, tt)
                              (known_unit (codes "장") (UnitCode.sheet, codes "1.0") (refl, tt) refl
                                refl refl)
                              (λ g. first u _ refl) refl,
                          (
                            hangul_unit 47588 (codes "") UnitCode.sheet (refl, tt)
                                (known_unit (codes "매") (UnitCode.sheet, codes "1.0") (refl, tt)
                                  refl refl refl)
                                (λ g. first u _ refl) refl,
                            tt,
                          ),
                        ),
                      ),
                    ),
                  ),
                ),
              ),
            ),
          ),
        ),
      ),
    ),
  )

  -- What `n` of a unit reads as.
  abbrev pub count_of : {F : Type 0} → Floats F → ℕ → Text × UnitCode → ParseResult F
  count_of fl n (w, base) = rule fl u base (fl.exact n) n 1 0 (str_int n ++ w)

  abbrev pub ReadsCount : {F : Type 0} → Floats F → ℕ → Text × UnitCode → Type 0
  ReadsCount fl n x = parse_option_text fl u (str_int n ++ x.0) ≡ ok (some (count_of fl n x))

  -- A number below 2^53 with a unit of the dictionary that is written in Hangul behind it,
  -- and nothing else, is read as that many of the unit: the number as the quantity and as the
  -- pieces, one pack, no bonus, and the whole text as the match.
  pub parse-hangul_units :
      {F : Type 0} (fl : Floats F) (n : ℕ) → n < exact_limit → All (ReadsCount fl n) hangul_units
  parse-hangul_units fl n h =
      All-map _ _ hangul_units (λ x unit. parse_count u fl n x.0 x.1 unit h) hangul-CountUnit
