-- ===== src/Search/Query/Needle.antt =====
-- The pattern that backend/app/services/search_service.py makes of a query.
use price_checker.Base.{
  ℕ, Bool, true, false, ◌&&◌, ◌==◌, ◌≡◌, refl, ap, arith, [], ◌∷◌, ◌++◌, append_assoc, Text, map,
  if◌then◌else◌, Unicode, strip,
}
use price_checker.Search.Like.{any_text, exactly, pieces, some_rest, fits, ilike, begins, contains}
use price_checker.Search.Query.{escape_like, needle}

-- What becomes of one character.
abbrev escaped : ℕ → Text
escaped c =
    if c == b'\\'
    then b'\\' ∷ c ∷ []
    else if c == b'%'
    then b'\\' ∷ c ∷ []
    else if c == b'_'
    then b'\\' ∷ c ∷ []
    else c ∷ []

escape_like-cons : (c : ℕ) (q : Text) → escape_like (c ∷ q) ≡ escaped c ++ escape_like q
unfolding escape_like
escape_like-cons c q = ground arith

pieces-escaped : (c : ℕ) (s : Text) → pieces false (escaped c ++ s) ≡ exactly c ∷ pieces false s
unfolding pieces
pieces-escaped c s = ground arith

pieces-needle :
    (q : Text) → pieces false (escape_like q ++ b'%' ∷ []) ≡ map (λ c. exactly c) q ++ any_text ∷ []
pieces-needle [] = unfold pieces in unfold escape_like in refl
pieces-needle (c ∷ q) =
    rw
      (
        escape_like-cons c q,
        append_assoc (escaped c) (escape_like q) (b'%' ∷ []),
        pieces-escaped c (escape_like q ++ b'%' ∷ []),
      )
      (ap (λ ps. exactly c ∷ ps) (pieces-needle q))

some_rest-cong :
    (f g : Text → Bool) → ((s : Text) → f s ≡ g s) → (s : Text) → some_rest f s ≡ some_rest g s
some_rest-cong f g h [] = h []
some_rest-cong f g h (c ∷ s) = rw (h (c ∷ s), some_rest-cong f g h s) refl

module _ (same : ℕ → ℕ → Bool) where
  all_fits : (s : Text) → fits same (any_text ∷ []) s ≡ true
  unfolding fits
  all_fits [] = refl
  all_fits (c ∷ s) = all_fits s

  fits-begins :
      (q s : Text) → fits same (map (λ c. exactly c) q ++ any_text ∷ []) s ≡ begins same q s
  unfolding fits
  fits-begins [] s = all_fits s
  fits-begins (x ∷ q) [] = refl
  fits-begins (x ∷ q) (c ∷ s) = ap (λ b. same x c && b) (fits-begins q s)

  -- The pattern that is made of a query matches just the texts that contain the query,
  -- without the spaces at its ends: percent signs, underscores and backslashes in it stand
  -- for themselves.
  pub ilike-needle :
      (u : Unicode) (query text : Text)
      → ilike same (needle u query) text ≡ contains same (strip u query) text
  unfolding ilike pieces fits
  ilike-needle u query text =
      rw (pieces-needle (strip u query))
        (some_rest-cong _ (begins same (strip u query)) (fits-begins (strip u query)) text)
