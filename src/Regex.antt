-- ===== src/Regex.antt =====
-- The part of Python's `re` that backend/app uses: tests of one character, greedy repetition of a
-- test, alternatives, options and groups. A match is sought as Python does it: at the first place
-- where there is one, and there the first in the order of the choices.
pub mod Matches
pub mod Runs
pub mod Search
pub mod Needs
pub mod First
use price_checker.Base.{
  ℕ, ◌-◌, Bool, true, false, not, Option, none, some, List, [], ◌∷◌, ◌++◌, map, concat_map, Text,
  codes, any, ◌==◌, take, length, if◌then◌else◌, Unicode,
}

-- A test of one character: a literal, `\d`, `\s`, `[abc]`, `[^c]`.
pub data Test : Type 0 where
  literal : ℕ → Test
  decimal space : Test
  any_of : Text → Test
  other_than : ℕ → Test

pub data Regex : Type 0 where
  -- the empty pattern
  nothing : Regex
  one : Test → Regex
  -- `t*`, greedy
  star : Test → Regex
  seq alt : Regex → Regex → Regex
  -- `( )` with its number
  group : ℕ → Regex → Regex

-- `t+`
abbrev pub plus : Test → Regex
plus t = seq (one t) (star t)

-- `(?: )?`, greedy
abbrev pub opt : Regex → Regex
opt r = alt r nothing

-- A word, and a choice of words.
abbrev pub word : Text → Regex
word [] = nothing
word (c ∷ s) = seq (one (literal c)) (word s)

abbrev pub words : List Text → Regex
words [] = nothing
words (s ∷ []) = word s
words (s ∷ t ∷ rest) = alt (word s) (words (t ∷ rest))

-- What is left of the text, and the groups so far, the latest first.
pub record State : Type 0 where
  pub rest : Text
  pub groups : List (ℕ × Text)

abbrev pub accepts : Unicode → Test → ℕ → Bool
accepts u (literal x) c = c == x
accepts u decimal c = u.is_decimal c
accepts u space c = u.is_space c
accepts u (any_of s) c = any (λ x. c == x) s
accepts u (other_than x) c = not (c == x)

-- The text between two states.
abbrev pub taken : Text → Text → Text
taken before after = take (length before - length after) before

module _ (u : Unicode) where
  unfoldable pub step : Test → Text → List (ℕ × Text) → List State
  step t [] groups = []
  step t (c ∷ s) groups = if accepts u t c then record { rest = s; groups = groups } ∷ [] else []

  -- The longest repetition first.
  repeat : Test → Text → List (ℕ × Text) → List State
  repeat t [] groups = record { rest = []; groups = groups } ∷ []
  repeat t (c ∷ s) groups =
      let longer = repeat t s groups in
      let here : State = record { rest = c ∷ s; groups = groups } in
      if accepts u t c then longer ++ here ∷ [] else here ∷ []

  abbrev pub close : ℕ → Text → State → State
  close n before m = record { rest = m.rest; groups = (n, taken before m.rest) ∷ m.groups }

  -- The states that a pattern can end in, in the order in which Python tries them.
  unfoldable pub runs : Regex → State → List State
  unfolding step repeat
  runs nothing a = a ∷ []
  runs (one t) a = step t a.rest a.groups
  runs (star t) a = repeat t a.rest a.groups
  runs (seq p q) a = concat_map (runs q) (runs p a)
  runs (alt p q) a = runs p a ++ runs q a
  runs (group n p) a = map (close n a.rest) (runs p a)

  -- A match: the text of the whole, and its groups.
  pub record Found : Type 0 where
    pub whole : Text
    pub groups : List (ℕ × Text)

  abbrev pub first_at : Text → List State → Option Found
  first_at s [] = none
  first_at s (m ∷ _) = some (record { whole = taken s m.rest; groups = m.groups })

  abbrev pub or_later : Option Found → Option Found → Option Found
  or_later none later = later
  or_later (some m) later = some m

  -- `pattern.search(text)`
  pub search_pattern : Regex → Text → Option Found
  unfolding runs
  search_pattern p [] = first_at [] (runs p (record { rest = []; groups = [] }))
  search_pattern p (c ∷ s) =
      let later = search_pattern p s in
      or_later (first_at (c ∷ s) (runs p (record { rest = c ∷ s; groups = [] }))) later

-- `match.group(n)`
unfoldable pub group_of : ℕ → List (ℕ × Text) → Option Text
group_of n [] = none
group_of n ((k, s) ∷ rest) = if k == n then some s else group_of n rest
