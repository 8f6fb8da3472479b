-- ===== src/Notifications/Policy/E164.antt =====
-- What `normalize_phone_e164` of backend/app/notifications/policy.py returns.
use price_checker.Base.{
  ap, ◌≤◌, true, false, ◌≡◌, ◌≢◌, refl, [], ◌∷◌, ◌++◌, Text, codes, filter, drop, length, arith,
  All, All-map, filter-All, Unicode, strip, strip_none, starts_with,
}
use price_checker.Errors.{ok}
use price_checker.Notifications.Policy.{normalize_phone_e164, IsKoreanNumber}

module _ (u : Unicode) where
  All-drop :
      (n : Text) → All (λ c. u.is_digit c ≡ true) n → All (λ c. u.is_digit c ≡ true) (drop 1 n)
  All-drop [] h = tt
  All-drop (c ∷ n) h = h.1

  eight : u.is_digit b'8' ≡ true
  eight = u.ascii_digit b'8' (omega arith) (omega arith)

  two : u.is_digit b'2' ≡ true
  two = u.ascii_digit b'2' (omega arith) (omega arith)

  nought : u.is_digit b'0' ≡ true
  nought = u.ascii_digit b'0' (omega arith) (omega arith)

  -- A number that is returned begins with +82, has digits only behind the plus, and has
  -- twelve characters or more.
  pub normalize_phone_e164-IsKoreanNumber :
      (phone number : Text) → normalize_phone_e164 u phone ≡ ok number → IsKoreanNumber u number
  unfolding normalize_phone_e164
  normalize_phone_e164-IsKoreanNumber phone number h = ground (
    arith,
    filter-All u.is_digit (drop 1 (strip u phone)),
    filter-All u.is_digit (strip u phone),
    All-drop (filter u.is_digit (strip u phone)),
    eight,
    two,
  )

  digits_not_spaces :
      (n : Text) → All (λ c. u.is_digit c ≡ true) n → All (λ c. u.is_space c ≡ false) n
  digits_not_spaces n h = All-map _ _ n u.digit_not_space h

  filter-digits : (n : Text) → All (λ c. u.is_digit c ≡ true) n → filter u.is_digit n ≡ n
  filter-digits [] h = refl
  filter-digits (c ∷ n) h = ground (arith, filter-digits n h.1)

  -- A plus and digits, as the function reads it.
  plus_digits :
      (n : Text)
      → All (λ c. u.is_digit c ≡ true) n
      → starts_with (b'+' ∷ n) (codes "+82") ≡ true
      → 12 ≤ length (b'+' ∷ n)
      → normalize_phone_e164 u (b'+' ∷ n) ≡ ok (b'+' ∷ n)
  unfolding normalize_phone_e164
  plus_digits n h p l =
      rw
        (strip_none u (b'+' ∷ n)
          (u.graphic_not_space b'+' (omega arith) (omega arith), digits_not_spaces n h))
        (rw (filter-digits n h) (ground arith))

  same : (number : Text) → IsKoreanNumber u number → normalize_phone_e164 u number ≡ ok number
  same [] v = cc v.prefix
  same (c ∷ n) v = ground (arith, plus_digits n v.digits)

  -- A number that was returned is accepted again and returned unchanged.
  pub normalize_phone_e164_idem :
      (phone number : Text)
      → normalize_phone_e164 u phone ≡ ok number
      → normalize_phone_e164 u number ≡ ok number
  normalize_phone_e164_idem phone number h =
      same number (normalize_phone_e164-IsKoreanNumber phone number h)

  domestic :
      (n : Text)
      → All (λ c. u.is_digit c ≡ true) n
      → 9 ≤ length n
      → normalize_phone_e164 u (codes "0" ++ n) ≡ ok (codes "+82" ++ n)
  unfolding normalize_phone_e164
  domestic n h l =
      rw (strip_none u (b'0' ∷ n) (digits_not_spaces (b'0' ∷ n) (nought, h)))
        (rw (filter-digits (b'0' ∷ n) (nought, h)) (ground arith))

  no_plus :
      (n : Text)
      → All (λ c. u.is_digit c ≡ true) n
      → 9 ≤ length n
      → normalize_phone_e164 u (codes "82" ++ n) ≡ ok (codes "+82" ++ n)
  unfolding normalize_phone_e164
  no_plus n h l =
      let d : All (λ c. u.is_digit c ≡ true) (codes "82" ++ n) = (eight, (two, h)) in
      rw (strip_none u (codes "82" ++ n) (digits_not_spaces (codes "82" ++ n) d))
        (rw (filter-digits (codes "82" ++ n) d) (ground arith))

  -- For nine digits or more, the spelling with a leading 0, the one with 82 and the one with
  -- +82 are accepted and give the same text.
  pub domestic_eq_international :
      (n : Text)
      → All (λ c. u.is_digit c ≡ true) n
      → 9 ≤ length n
      → (normalize_phone_e164 u (codes "0" ++ n) ≡ ok (codes "+82" ++ n))
        × (normalize_phone_e164 u (codes "82" ++ n) ≡ ok (codes "+82" ++ n))
        × (normalize_phone_e164 u (codes "+82" ++ n) ≡ ok (codes "+82" ++ n))
  domestic_eq_international n h l = (
    domestic n h l,
    no_plus n h l,
    plus_digits (codes "82" ++ n) (eight, (two, h)) refl (omega arith),
  )

  -- For nine digits or more, the spelling with +82 and the domestic 0 is accepted with the 0
  -- kept, so it gives another text than the spelling with the domestic 0 alone.
  pub trunk_zero_kept :
      (n : Text)
      → All (λ c. u.is_digit c ≡ true) n
      → 9 ≤ length n
      → (normalize_phone_e164 u (codes "+820" ++ n) ≡ ok (codes "+820" ++ n))
        × (normalize_phone_e164 u (codes "0" ++ n) ≡ ok (codes "+82" ++ n))
        × (codes "+820" ++ n ≢ codes "+82" ++ n)
  trunk_zero_kept n h l = (
    plus_digits (codes "820" ++ n) (eight, (two, (nought, h))) refl (omega arith),
    domestic n h l,
    λ e. omega (arith, ap length e),
  )
