-- ===== src/Parsers/Options/Unread.antt =====
-- Texts that `parse_option_text` of backend/app/parsers/regex_parser.py does not read.
use price_checker.Base.{
  ℕ, Bool, false, ◌&&◌, ◌≡◌, refl, arith, [], ◌∷◌, ◌++◌, Text, codes, any, ◌==◌, leb, none, Unicode,
  strip, str_int, str_int-All, All, All-append, All-map, IsDigit, ◌⊎◌, inl, inr,
}
use price_checker.Errors.{ok}
use price_checker.Floats.{Floats}
use price_checker.Regex.Needs.{needs, search-none}
use price_checker.Parsers.Patterns.{
  total_explicit, parenthesis_detail, n_by_m_with_total, volume_x_count, volume_space_count,
  simple_count, bonus_combo, comma_combo,
}
use price_checker.Parsers.Options.{
  normal, normalize, by_parenthesis, by_comma, by_packs, by_volume_times, by_volume_count, by_bonus,
  by_count, explicit_total, by_patterns, parse_visible, parse_option_text,
}

-- The characters with which a unit begins.
abbrev pub begins_unit : ℕ → Bool
begins_unit c = any (λ x. c == x) (codes "kgmlcLpbes개입팩세박묶봉병캔롤장매")

abbrev pub is_ascii_digit : ℕ → Bool
is_ascii_digit c = leb b'0' c && leb c b'9'

module _ {F : Type 0} (fl : Floats F) (u : Unicode) where
  unread : (s : Text) → any begins_unit s ≡ false → by_patterns fl u none s ≡ ok none
  unfolding by_patterns by_parenthesis by_comma by_packs by_volume_times by_volume_count by_bonus
      by_count needs
  unread s h =
      rw
        (
          search-none u begins_unit parenthesis_detail s refl h,
          search-none u begins_unit comma_combo s refl h,
          search-none u begins_unit n_by_m_with_total s refl h,
          search-none u begins_unit volume_x_count s refl h,
          search-none u begins_unit volume_space_count s refl h,
          search-none u begins_unit bonus_combo s refl h,
          search-none u begins_unit simple_count s refl h,
        )
        refl

  no_total : (s : Text) → any begins_unit s ≡ false → explicit_total fl u s ≡ ok none
  unfolding explicit_total needs
  no_total s h = rw (search-none u begins_unit total_explicit s refl h) refl

  pub parse-Unread :
      (s : Text) → any begins_unit (normalize s) ≡ false → parse_option_text fl u s ≡ ok none
  unfolding parse_option_text
  parse-Unread s h = visible (strip u s)
    where
      visible : (v : Text) → parse_visible fl u v s ≡ ok none
      visible [] = unfold parse_visible in refl
      visible (c ∷ v) =
          unfold parse_visible in rw (no_total (normalize s) h, unread (normalize s) h) refl

  keeps_out : (c : ℕ) → (c ≡ b'+') ⊎ IsDigit c → begins_unit (normal c) ≡ false
  keeps_out c (inl e) = rw e refl
  keeps_out c (inr h) = ground arith

  sum_unread :
      (s : Text) → All (λ c. (c ≡ b'+') ⊎ IsDigit c) s → any begins_unit (normalize s) ≡ false
  unfolding normalize
  sum_unread [] h = refl
  sum_unread (c ∷ s) h = rw (keeps_out c h.0) (sum_unread s h.1)

  -- Two numbers with a plus between them, and no unit, are not read: the parser returns that
  -- there is no result.
  pub plus-Unread : (m n : ℕ) → parse_option_text fl u (str_int m ++ b'+' ∷ str_int n) ≡ ok none
  plus-Unread m n = parse-Unread (str_int m ++ b'+' ∷ str_int n) (
      sum_unread _ (
        All-append _ (str_int m) (b'+' ∷ str_int n)
          (All-map _ _ (str_int m) (λ c h. inr h) (str_int-All m))
          (inl refl, All-map _ _ (str_int n) (λ c h. inr h) (str_int-All n))))
