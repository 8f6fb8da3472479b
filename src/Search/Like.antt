-- ===== src/Search/Like.antt =====
-- `ILIKE ... ESCAPE '\'` of the database, as its documentation gives it: `%` stands for any text and
-- `_` for any character, a backslash takes the next character as it is, and characters are compared
-- by a test that the collation gives, a parameter.
use price_checker.Base.{ℕ, Bool, true, false, ◌&&◌, ◌||◌, ◌==◌, List, [], ◌∷◌, Text, if◌then◌else◌}

pub data Piece : Type 0 where
  any_text any_one : Piece
  exactly : ℕ → Piece

-- The pieces of a pattern, behind a backslash or not.
unfoldable pub pieces : Bool → Text → List Piece
pieces escaped [] = []
pieces escaped (c ∷ s) =
    let plain = pieces false s in
    let behind = pieces true s in
    if escaped
    then exactly c ∷ plain
    else if c == b'\\'
    then behind
    else if c == b'%'
    then any_text ∷ plain
    else if c == b'_'
    then any_one ∷ plain
    else exactly c ∷ plain

abbrev pub some_rest : (Text → Bool) → Text → Bool
some_rest f [] = f []
some_rest f (c ∷ s) = f (c ∷ s) || some_rest f s

abbrev no_text : Text → Bool
no_text [] = true
no_text (c ∷ s) = false

module _ (same : ℕ → ℕ → Bool) where
  unfoldable pub fits : List Piece → Text → Bool
  fits [] s = no_text s
  fits (any_text ∷ ps) s = some_rest (fits ps) s
  fits (any_one ∷ ps) [] = false
  fits (any_one ∷ ps) (c ∷ s) = fits ps s
  fits (exactly x ∷ ps) [] = false
  fits (exactly x ∷ ps) (c ∷ s) = same x c && fits ps s

  -- `text ILIKE pattern ESCAPE '\'`
  unfoldable pub ilike : Text → Text → Bool
  ilike pattern text = fits (pieces false pattern) text

  -- Whether a text begins with another one, and whether it contains it.
  abbrev pub begins : Text → Text → Bool
  begins [] s = true
  begins (x ∷ q) [] = false
  begins (x ∷ q) (c ∷ s) = same x c && begins q s

  abbrev pub contains : Text → Text → Bool
  contains q s = some_rest (begins q) s
