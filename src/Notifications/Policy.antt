-- ===== src/Notifications/Policy.antt =====
-- backend/app/notifications/policy.py.
pub mod E164
use price_checker.Base.{
  ℕ, ◌≤◌, Bool, true, ◌&&◌, ◌≡◌, ◌∷◌, ◌++◌, Text, codes, starts_with, filter, drop, length, leb,
  if◌then◌else◌, All, Unicode, strip,
}
use price_checker.Errors.{Result, ok, err, invalid_phone_number}

module _ (u : Unicode) where
  unfoldable pub normalize_phone_e164 : Text → Result Text
  normalize_phone_e164 phone =
      let stripped = strip u phone in
      if starts_with stripped (codes "+")
      then (let digits = b'+' ∷ filter u.is_digit (drop 1 stripped) in
          if starts_with digits (codes "+82") && leb 12 (length digits)
          then ok digits
          else err invalid_phone_number)
      else (let digits_only = filter u.is_digit stripped in
          if starts_with digits_only (codes "82") && leb 11 (length digits_only)
          then ok (b'+' ∷ digits_only)
          else if starts_with digits_only (codes "0") && leb 10 (length digits_only)
          then ok (codes "+82" ++ drop 1 digits_only)
          else err invalid_phone_number)

  -- A plus, 82, and digits only, twelve characters or more.
  pub record IsKoreanNumber (number : Text) : Type 0 where
    pub prefix : starts_with number (codes "+82") ≡ true
    pub digits : All (λ c. u.is_digit c ≡ true) (drop 1 number)
    pub long : 12 ≤ length number
