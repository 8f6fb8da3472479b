-- ===== src/Regex/Search.antt =====
-- What a search of Python's `re` finds: the first place where the pattern matches.
use price_checker.Base.{
  ℕ, ◌≡◌, refl, sym, ap, subst, ◌∙◌, List, [], ◌∷◌, ◌++◌, Text, Option, none, some, inl, Unicode,
  In, append-nil,
}
use price_checker.Regex.{Regex, State, runs, Found, first_at, or_later, taken, search_pattern}
use price_checker.Regex.Matches.{Matches, Matches-prefix, taken-append}
use price_checker.Regex.Runs.{runs_sound, runs_complete}

abbrev pub start : Text → State
start s = record { rest = s; groups = [] }

module _ (u : Unicode) (p : Regex) where
  -- No match begins before the end of the first text.
  abbrev pub Unmatched : Text → Text → Type 0
  Unmatched [] after = Unit
  Unmatched (c ∷ before) after =
      ((b : State) → ¬ Matches u p (start (c ∷ (before ++ after))) b) × Unmatched before after

  -- The first place where the pattern matches, or none.
  abbrev pub Finds : Text → Option (Found u) → Type 0
  Finds s (some m) =
      (before after : Text) × (s ≡ before ++ (m.whole ++ after))
      × Matches u p (start (m.whole ++ after)) (record { rest = after; groups = m.groups })
      × Unmatched before (m.whole ++ after)
  Finds s none = Unmatched s [] × ((b : State) → ¬ Matches u p (start []) b)

  At : Text → Option (Found u) → Type 0
  At s (some m) =
      (after : Text) × (s ≡ m.whole ++ after)
      × Matches u p (start s) (record { rest = after; groups = m.groups })
  At s none = (b : State) → ¬ Matches u p (start s) b

  first-At : (s : Text) (ms : List State) → runs u p (start s) ≡ ms → At s (first_at u s ms)
  unfolding At
  first-At s [] e = λ b h. subst (In b) e (runs_complete u p (start s) b h)
  first-At s (m ∷ ms) e =
      let found : Matches u p (start s) m =
        runs_sound u p (start s) m (subst (In m) (sym e) (inl refl)) in
      let (w, split) = Matches-prefix u p (start s) m found in
      let whole = ap (λ t. taken t m.rest) split ∙ taken-append w m.rest in
      (m.rest, split ∙ ap (λ v. v ++ m.rest) (sym whole), found)

  last_place : (o : Option (Found u)) → At [] o → Finds [] o
  unfolding At
  last_place (some m) (after, e, found) = (
    [],
    after,
    e,
    subst (λ t. Matches u p (start t) (record { rest = after; groups = m.groups })) e found,
    tt,
  )
  last_place none h = (tt, h)

  next_place :
      (c : ℕ) (s : Text) (o later : Option (Found u))
      → At (c ∷ s) o
      → Finds s later
      → Finds (c ∷ s) (or_later u o later)
  unfolding At
  next_place c s (some m) later (after, e, found) h = (
    [],
    after,
    e,
    subst (λ t. Matches u p (start t) (record { rest = after; groups = m.groups })) e found,
    tt,
  )
  next_place c s none (some m) here (before, after, e, found, earlier) = (
    c ∷ before,
    after,
    ap (λ t. c ∷ t) e,
    found,
    (subst (λ t. (b : State) → ¬ Matches u p (start (c ∷ t)) b) e here, earlier),
  )
  next_place c s none none here (earlier, end) = (
    (subst (λ t. (b : State) → ¬ Matches u p (start (c ∷ t)) b) (sym (append-nil s)) here, earlier),
    end,
  )

  -- A search finds a match at the first place where there is one, or nothing where there is none.
  pub search_pattern-Finds : (s : Text) → Finds s (search_pattern u p s)
  unfolding search_pattern
  search_pattern-Finds [] = last_place _ (first-At [] _ refl)
  search_pattern-Finds (c ∷ s) =
      next_place c s _ (search_pattern u p s) (first-At (c ∷ s) _ refl) (search_pattern-Finds s)
