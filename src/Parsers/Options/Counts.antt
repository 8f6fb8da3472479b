-- ===== src/Parsers/Options/Counts.antt =====
-- Plain counts as `parse_option_text` of backend/app/parsers/regex_parser.py reads them.
use price_checker.Base.{
  ℕ, ◌<◌, Bool, false, ◌≡◌, refl, ap, sym, subst, arith, List, [], ◌∷◌, ◌++◌, append-nil,
  append_assoc, Text, codes, any, ◌==◌, none, some, Unicode, strip_none, str_int, str_int-All,
  str_int-cons, All, All-append, All-map, All-any, IsDigit, text_eq,
}
use price_checker.Errors.{ok}
use price_checker.Floats.{Floats, exact_limit}
use price_checker.Regex.{search_pattern, Found, decimal, space, group_of}
use price_checker.Regex.Needs.{needs, any-append, search-none}
use price_checker.Regex.First.{
  at, First, Stops, First-seq, First-group, First-star, First-number, search-First,
}
use price_checker.Parsers.Units.{UnitCode, unit_of, convert_to_base}
use price_checker.Parsers.Patterns.{
  total_explicit, parenthesis_detail, n_by_m_with_total, volume_x_count, volume_space_count,
  simple_count, bonus_combo, comma_combo, digits, count_unit,
}
use price_checker.Parsers.Options.{
  rule, normal, normalize, by_parenthesis, by_comma, by_packs, by_volume_times, by_volume_count,
  by_bonus, by_count, explicit_total, by_patterns, parse_visible, parse_option_text, to_int,
  to_float,
}

-- A character without which no pattern but the one for a plain count matches.
abbrev pub is_special : ℕ → Bool
is_special c = any (λ x. c == x) (codes "(,x×X+총kgmlcL")

digit_plain : (c : ℕ) → IsDigit c → is_special c ≡ false
digit_plain c h = ground arith

digit_normal : (c : ℕ) → IsDigit c → normal c ≡ c
digit_normal c h = ground arith

normalize_none : (s : Text) → All (λ c. normal c ≡ c) s → normalize s ≡ s
unfolding normalize
normalize_none [] h = refl
normalize_none (c ∷ s) h = rw h.0 (ap (λ t. c ∷ t) (normalize_none s h.1))

module _ (u : Unicode) where
  -- What there is to know of a unit behind a number.
  pub record CountUnit (w : Text) (base : UnitCode) : Type 0 where
    pub known : unit_of u w ≡ some (base, codes "1.0")
    pub chosen : (g : List (ℕ × Text)) → First u count_unit (at (w ++ []) g) (at [] g)
    pub no_decimal : Stops u decimal (w ++ [])
    pub no_space : Stops u space (w ++ [])
    pub plain : any is_special w ≡ false
    pub same : All (λ c. normal c ≡ c) w
    pub visible : All (λ c. u.is_space c ≡ false) w

  module _ {F : Type 0} (fl : Floats F) where
    only_count : (s : Text) → any is_special s ≡ false → by_patterns fl u none s ≡ by_count fl u s
    unfolding by_patterns by_parenthesis by_comma by_packs by_volume_times by_volume_count by_bonus
        needs
    only_count s h =
        rw
          (
            search-none u is_special parenthesis_detail s refl h,
            search-none u is_special comma_combo s refl h,
            search-none u is_special n_by_m_with_total s refl h,
            search-none u is_special volume_x_count s refl h,
            search-none u is_special volume_space_count s refl h,
            search-none u is_special bonus_combo s refl h,
          )
          refl

    no_total : (s : Text) → any is_special s ≡ false → explicit_total fl u s ≡ ok none
    unfolding explicit_total needs
    no_total s h = rw (search-none u is_special total_explicit s refl h) refl

    module _ (n : ℕ) (w : Text) (base : UnitCode) (unit : CountUnit w base) where
      found : Found u
      found = record { whole = str_int n ++ w; groups = (2, w) ∷ (1, str_int n) ∷ [] }

      simple_match :
          First u simple_count
            (at (str_int n ++ (w ++ [])) [])
            (at [] ((2, w) ∷ (1, str_int n) ∷ []))
      simple_match =
          First-seq u
            (First-group u 1 digits (str_int n) (w ++ []) [] _
              (First-number u n (w ++ []) [] unit.no_decimal) refl)
            (First-seq u (First-star u space [] (w ++ []) ((1, str_int n) ∷ []) tt unit.no_space) (
              First-group u 2 count_unit w [] ((1, str_int n) ∷ []) _
                (unit.chosen ((1, str_int n) ∷ [])) refl))

      counted : search_pattern u simple_count (str_int n ++ w) ≡ some found
      unfolding found
      counted =
          subst (λ s. search_pattern u simple_count s ≡ some found) (append-nil (str_int n ++ w))
            (search-First u simple_count (str_int n ++ w) [] _ (
              subst (λ s. First u simple_count (at s []) (at [] found.groups))
                (sym (append_assoc (str_int n) w [])) simple_match))

      plain_text : any is_special (str_int n ++ w) ≡ false
      plain_text =
          rw
            (
              any-append is_special (str_int n) w,
              All-any is_special (str_int n) (All-map _ _ (str_int n) digit_plain (str_int-All n)),
            )
            unit.plain

      read_count :
          n < exact_limit
          → by_count fl u (str_int n ++ w)
            ≡ ok (some (rule fl u base (fl.exact n) n 1 0 (str_int n ++ w)))
      unfolding by_count to_int to_float found convert_to_base group_of text_eq
      read_count h =
          rw (counted, fl.truncate-of_text n h, fl.of_nat-exact n h, unit.known, fl.times-one n h)
            refl

      unchanged : normalize (str_int n ++ w) ≡ str_int n ++ w
      unchanged = normalize_none (str_int n ++ w) (
          All-append _ (str_int n) w (All-map _ _ (str_int n) digit_normal (str_int-All n))
            unit.same)

      not_space : All (λ c. u.is_space c ≡ false) (str_int n ++ w)
      not_space =
          All-append _ (str_int n) w
            (All-map _ _ (str_int n) (λ c h. u.digit_not_space c (u.ascii_digit c h.0 h.1))
              (str_int-All n))
            unit.visible

      -- The whole text is read as a count of the unit.
      pub parse_count :
          n < exact_limit
          → parse_option_text fl u (str_int n ++ w)
            ≡ ok (some (rule fl u base (fl.exact n) n 1 0 (str_int n ++ w)))
      unfolding parse_option_text
      parse_count h = rw (strip_none u (str_int n ++ w) not_space) (
          let (d, s, e) = str_int-cons n in
          visible (str_int n ++ w) d (s ++ w) (ap (λ t. t ++ w) e))
        where
          visible :
              (v : Text) (d : ℕ) (s : Text)
              → v ≡ d ∷ s
              → parse_visible fl u v (str_int n ++ w)
                ≡ ok (some (rule fl u base (fl.exact n) n 1 0 (str_int n ++ w)))
          visible v d s e = rw e (
              unfold parse_visible in
              rw
                (
                  unchanged,
                  no_total (str_int n ++ w) plain_text,
                  only_count (str_int n ++ w) plain_text,
                  read_count h,
                )
                refl)
