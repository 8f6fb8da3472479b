-- ===== src/Base/Strip.antt =====
-- `str.isdigit`, `str.strip` and the classes `\d` and `\s` of a pattern go by Unicode's tables, which
-- are a parameter here with what the code relies on: the ASCII digits are digits and decimal, the
-- other ASCII characters are not decimal, the visible ASCII characters and the Hangul syllables are
-- no spaces, the syllables are not decimal, no digit is a space, and `str.lower` leaves small ASCII
-- letters and syllables as they are.
use Prim.Native.Nat.{ℕ, ◌+◌, ◌≤◌, ◌<◌}
use mathlib.Core.Path.{◌≡◌, refl}
use mathlib.Core.Bool.{Bool, true, false, ◌&&◌, ◌||◌}
use mathlib.Core.List.{[], ◌∷◌, ◌++◌, map}
use native.Mathlib.Omega.{arith}
use price_checker.Base.Tests.{if◌then◌else◌, leb}
use price_checker.Base.Lists.{All}
use price_checker.Base.Texts.{Text}

-- A small ASCII letter or a Hangul syllable.
abbrev pub is_small : ℕ → Bool
is_small c = (leb b'a' c && leb c b'z') || (leb 44032 c && leb c 55203)

pub record Unicode : Type 0 where
  pub is_digit : ℕ → Bool
  pub is_space : ℕ → Bool
  pub is_decimal : ℕ → Bool
  pub lower : Text → Text
  pub ascii_digit : (c : ℕ) → b'0' ≤ c → c ≤ b'9' → is_digit c ≡ true
  pub plus_not_digit : is_digit b'+' ≡ false
  pub graphic_not_space : (c : ℕ) → b'!' ≤ c → c ≤ b'~' → is_space c ≡ false
  pub digit_not_space : (c : ℕ) → is_digit c ≡ true → is_space c ≡ false
  pub ascii_decimal : (c : ℕ) → b'0' ≤ c → c ≤ b'9' → is_decimal c ≡ true
  pub below_not_decimal : (c : ℕ) → c < b'0' → is_decimal c ≡ false
  pub ascii_not_decimal : (c : ℕ) → b'9' < c → c ≤ b'~' → is_decimal c ≡ false
  pub lower_none : (s : Text) → All (λ c. is_small c ≡ true) s → lower s ≡ s
  pub hangul_not_decimal : (c : ℕ) → 44032 ≤ c → c ≤ 55203 → is_decimal c ≡ false
  pub hangul_not_space : (c : ℕ) → 44032 ≤ c → c ≤ 55203 → is_space c ≡ false

abbrev ascii_is_digit : ℕ → Bool
ascii_is_digit c = leb b'0' c && leb c b'9'

abbrev ascii_is_space : ℕ → Bool
ascii_is_space c = if leb c 13 then leb 9 c else leb 28 c && leb c 32

in_range : (c : ℕ) → b'0' ≤ c → c ≤ b'9' → ascii_is_digit c ≡ true
in_range c lo hi = ground arith

disjoint : (c : ℕ) → ascii_is_digit c ≡ true → ascii_is_space c ≡ false
disjoint c h = ground arith

graphic : (c : ℕ) → b'!' ≤ c → c ≤ b'~' → ascii_is_space c ≡ false
graphic c lo hi = ground arith

below : (c : ℕ) → c < b'0' → ascii_is_digit c ≡ false
below c h = ground arith

above : (c : ℕ) → b'9' < c → c ≤ b'~' → ascii_is_digit c ≡ false
above c lo hi = ground arith

hangul : (c : ℕ) → 44032 ≤ c → c ≤ 55203 → ascii_is_digit c ≡ false
hangul c lo hi = ground arith

hangul_visible : (c : ℕ) → 44032 ≤ c → c ≤ 55203 → ascii_is_space c ≡ false
hangul_visible c lo hi = ground arith

abbrev ascii_lower : ℕ → ℕ
ascii_lower c = if leb b'A' c && leb c b'Z' then c + 32 else c

small_lower : (s : Text) → All (λ c. is_small c ≡ true) s → map ascii_lower s ≡ s
small_lower [] h = refl
small_lower (c ∷ s) h = ground (arith, small_lower s h.1)

-- ASCII alone.
unfoldable pub ascii : Unicode
unfolding in_range disjoint graphic below above hangul hangul_visible small_lower
ascii = record {
  is_digit = ascii_is_digit;
  is_space = ascii_is_space;
  is_decimal = ascii_is_digit;
  lower = map ascii_lower;
  ascii_digit = in_range;
  plus_not_digit = refl;
  graphic_not_space = graphic;
  digit_not_space = disjoint;
  ascii_decimal = in_range;
  below_not_decimal = below;
  ascii_not_decimal = above;
  lower_none = small_lower;
  hangul_not_decimal = hangul;
  hangul_not_space = hangul_visible;
}

module _ (u : Unicode) where
  -- `s.lstrip()`
  unfoldable pub lstrip : Text → Text
  lstrip [] = []
  lstrip (c ∷ s) = let rest = lstrip s in if u.is_space c then rest else c ∷ s

  -- A character before the stripped rest.
  keep : ℕ → Text → Text
  keep c [] = if u.is_space c then [] else c ∷ []
  keep c (d ∷ s) = c ∷ d ∷ s

  -- `s.rstrip()`
  pub rstrip : Text → Text
  unfolding keep
  rstrip [] = []
  rstrip (c ∷ s) = keep c (rstrip s)

  -- `s.strip()`
  unfoldable pub strip : Text → Text
  unfolding lstrip rstrip
  strip s = rstrip (lstrip s)

  rstrip_none : (s : Text) → All (λ c. u.is_space c ≡ false) s → rstrip s ≡ s
  unfolding rstrip
  rstrip_none [] h = refl
  rstrip_none (c ∷ []) h = ground arith
  rstrip_none (c ∷ d ∷ s) h = ground (arith, rstrip_none (d ∷ s) h.1)

  -- A text with no space in it is left as it is.
  pub strip_none : (s : Text) → All (λ c. u.is_space c ≡ false) s → strip s ≡ s
  unfolding strip
  strip_none [] h = refl
  strip_none (c ∷ s) h = ground (arith, rstrip_none (c ∷ s) h)

  -- A text that begins with no space is left as it is from the left.
  pub lstrip_none : (c : ℕ) (s : Text) → u.is_space c ≡ false → lstrip (c ∷ s) ≡ c ∷ s
  unfolding lstrip
  lstrip_none c s h = ground arith

  -- Spaces at the start are dropped.
  pub lstrip-append : (l s : Text) → All (λ c. u.is_space c ≡ true) l → lstrip (l ++ s) ≡ lstrip s
  unfolding lstrip
  lstrip-append [] s h = refl
  lstrip-append (c ∷ l) s h = ground (arith, lstrip-append l s h.1)
