-- ===== src/Regex/Needs.antt =====
-- Characters that every match of a pattern of Python's `re` has to take.
use price_checker.Base.{
  ℕ, Bool, true, false, ◌&&◌, ◌||◌, ◌==◌, ◌≡◌, refl, sym, ap, subst, ◌∙◌, arith, [], ◌∷◌, ◌++◌,
  Text, any, Option, none, some, inl, inr, ◌⊎◌, Bool-cases, Unicode,
}
use price_checker.Regex.{
  Test, literal, decimal, space, any_of, other_than, Regex, nothing, one, star, seq, alt, group,
  State, accepts, Found, search_pattern,
}
use price_checker.Regex.Matches.{Matches, Matches-prefix}
use price_checker.Regex.Search.{start, Finds, search_pattern-Finds}

-- Whether each character of a text passes a test.
abbrev every : (ℕ → Bool) → Text → Bool
every q [] = true
every q (c ∷ s) = q c && every q s

-- Whether each match has to take a character that passes the test.
unfoldable pub needs : (ℕ → Bool) → Regex → Bool
needs q nothing = false
needs q (one (literal x)) = q x
needs q (one (any_of s)) = every q s
needs q (one decimal) = false
needs q (one space) = false
needs q (one (other_than x)) = false
needs q (star t) = false
needs q (seq p r) = needs q p || needs q r
needs q (alt p r) = needs q p && needs q r
needs q (group n p) = needs q p

one_of :
    (q : ℕ → Bool) (c : ℕ) (s : Text) → every q s ≡ true → any (λ x. c == x) s ≡ true → q c ≡ true
one_of q c [] h k = absurd (cc k)
one_of q c (x ∷ s) h k = elim (Bool-cases (c == x)) [
  | inl e ↦ (let same : c ≡ x = ground arith in subst (λ y. q y ≡ true) (sym same) (ground arith))
  | inr n ↦ one_of q c s (ground arith) (ground arith)
]

pub any-append : (q : ℕ → Bool) (s t : Text) → any q (s ++ t) ≡ (any q s || any q t)
any-append q [] t = refl
any-append q (c ∷ s) t = ground (arith, any-append q s t)

module _ (u : Unicode) (q : ℕ → Bool) where
  one_needs : (t : Test) (c : ℕ) → needs q (one t) ≡ true → accepts u t c ≡ true → q c ≡ true
  unfolding needs
  one_needs (literal x) c h y = ground arith
  one_needs (any_of s) c h y = one_of q c s h y
  one_needs decimal c h y = absurd (cc h)
  one_needs space c h y = absurd (cc h)
  one_needs (other_than x) c h y = absurd (cc h)

  both_ways : (x y : Bool) → (x || y) ≡ true → (x ≡ true) ⊎ (y ≡ true)
  both_ways true y h = inl refl
  both_ways false y h = inr h

  both : (x y : Bool) → (x && y) ≡ true → (x ≡ true) × (y ≡ true)
  both true y h = (refl, h)
  both false y h = absurd (cc h)

  needs_lem : (p : Regex) (a b : State) → needs q p ≡ true → Matches u p a b → any q a.rest ≡ true
  unfolding needs
  needs_lem nothing a b h m = absurd (cc h)
  needs_lem (one t) a b h (c, e, y, _) = rw (e, one_needs t c h y) refl
  needs_lem (star t) a b h m = absurd (cc h)
  needs_lem (seq p r) a b h (m, left, right) =
      let (w, e) = Matches-prefix u p a m left in
      elim (both_ways (needs q p) (needs q r) h) [
        | inl y ↦ needs_lem p a m y left
        | inr n ↦ rw (e, any-append q w m.rest, needs_lem r m b n right) (or_true (any q w))
      ]
    where
      or_true : (x : Bool) → (x || true) ≡ true
      or_true true = refl
      or_true false = refl
  needs_lem (alt p r) a b h (inl m) = needs_lem p a b (both (needs q p) (needs q r) h).0 m
  needs_lem (alt p r) a b h (inr m) = needs_lem r a b (both (needs q p) (needs q r) h).1 m
  needs_lem (group n p) a b h (m, left, _, _, _) = needs_lem p a m h left

  -- A text without such a character has no match.
  pub search-none :
      (p : Regex) (s : Text) → needs q p ≡ true → any q s ≡ false → search_pattern u p s ≡ none
  search-none p s h lacks = outcome (search_pattern u p s) (search_pattern-Finds u p s)
    where
      clash : (v w : Text) → any q (v ++ w) ≡ false → any q w ≡ true → ⊥
      clash [] w none_at here = ground arith
      clash (c ∷ v) w none_at here = clash v w (ground arith) here

      outcome : (o : Option (Found u)) → Finds u p s o → o ≡ none
      outcome none f = refl
      outcome (some m) (before, after, e, found, _) =
          let there = needs_lem p (start (m.whole ++ after)) _ h found in
          absurd (clash before (m.whole ++ after) (sym (ap (any q) e) ∙ lacks) there)
