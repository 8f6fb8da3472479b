-- ===== src/Regex/First.antt =====
-- The match that Python's `re` takes first, built up along a pattern.
use price_checker.Base.{
  ℕ, true, false, ◌≡◌, refl, sym, subst, arith, List, [], ◌∷◌, ◌++◌, Text, All, All-map, Option,
  some, concat_map, Unicode, str_int, str_int-All, str_int-cons, map,
}
use price_checker.Regex.{
  Test, literal, decimal, Regex, nothing, one, star, seq, alt, group, plus, word, State, accepts,
  taken, step, repeat, runs, Found, search_pattern,
}
use price_checker.Regex.Matches.{taken-append}
use price_checker.Regex.Search.{start}

abbrev pub at : Text → List (ℕ × Text) → State
at s g = record { rest = s; groups = g }

module _ (u : Unicode) where
  -- The first state that the pattern ends in.
  pub record First (p : Regex) (a b : State) : Type 0 where
    pub others : List State
    pub before_others : runs u p a ≡ b ∷ others

  -- No match here.
  pub record Fails (p : Regex) (a : State) : Type 0 where
    pub no_state : runs u p a ≡ []

  pub first : {p : Regex} {a b : State} (ms : List State) → runs u p a ≡ b ∷ ms → First p a b
  first ms e = record { others = ms; before_others = e }

  -- A repetition ends here.
  abbrev pub Stops : Test → Text → Type 0
  Stops t [] = Unit
  Stops t (c ∷ s) = accepts u t c ≡ false

  module _ {p q : Regex} {a : State} where
    pub First-seq : {m b : State} → First p a m → First q m b → First (seq p q) a b
    unfolding runs
    First-seq h k =
        first (k.others ++ concat_map (runs u q) h.others)
          (rw (h.before_others, k.before_others) refl)

    pub Fails-seq : Fails p a → Fails (seq p q) a
    unfolding runs
    Fails-seq f = record { no_state = rw f.no_state refl }

    pub First-alt_left : {b : State} → First p a b → First (alt p q) a b
    unfolding runs
    First-alt_left h = first (h.others ++ runs u q a) (rw h.before_others refl)

    pub First-alt_right : {b : State} → Fails p a → First q a b → First (alt p q) a b
    unfolding runs
    First-alt_right f h = first h.others (rw (f.no_state, h.before_others) refl)

  pub First-nothing : (a : State) → First nothing a a
  unfolding runs
  First-nothing a = first [] refl

  pub First-one :
      (t : Test) (c : ℕ) (s : Text) (g : List (ℕ × Text))
      → accepts u t c ≡ true
      → First (one t) (at (c ∷ s) g) (at s g)
  unfolding runs step
  First-one t c s g h = first [] (rw h refl)

  pub First-group :
      (n : ℕ) (p : Regex) (w r : Text) (g : List (ℕ × Text)) (m : State)
      → First p (at (w ++ r) g) m
      → m.rest ≡ r
      → First (group n p) (at (w ++ r) g) (at r ((n, w) ∷ m.groups))
  unfolding runs
  First-group n p w r g m h same =
      first
        (map
          (λ (x : State). record { rest = x.rest; groups = (n, taken (w ++ r) x.rest) ∷ x.groups })
          h.others)
        (rw (h.before_others, same, taken-append w r) refl)

  pub First-star :
      (t : Test) (w r : Text) (g : List (ℕ × Text))
      → All (λ c. accepts u t c ≡ true) w
      → Stops t r
      → First (star t) (at (w ++ r) g) (at r g)
  unfolding runs repeat
  First-star t [] [] g h stop = first [] refl
  First-star t [] (c ∷ r) g h stop = first [] (rw stop refl)
  First-star t (c ∷ w) r g h stop =
      let more = First-star t w r g h.1 stop in
      first (more.others ++ at (c ∷ (w ++ r)) g ∷ []) (rw (h.0, more.before_others) refl)

  pub First-plus :
      (t : Test) (c : ℕ) (w r : Text) (g : List (ℕ × Text))
      → All (λ c. accepts u t c ≡ true) (c ∷ w)
      → Stops t r
      → First (plus t) (at (c ∷ (w ++ r)) g) (at r g)
  First-plus t c w r g h stop =
      First-seq (First-one t c (w ++ r) g h.0) (First-star t w r g h.1 stop)

  pub First-word : (w r : Text) (g : List (ℕ × Text)) → First (word w) (at (w ++ r) g) (at r g)
  First-word [] r g = First-nothing (at r g)
  First-word (c ∷ w) r g =
      First-seq (First-one (literal c) c (w ++ r) g (ground arith)) (First-word w r g)

  -- The digits of a printed number.
  pub First-number :
      (n : ℕ) (r : Text) (g : List (ℕ × Text))
      → Stops decimal r
      → First (plus decimal) (at (str_int n ++ r) g) (at r g)
  First-number n r g stop =
      let (d, s, e) = str_int-cons n in
      let digits : All (λ c. u.is_decimal c ≡ true) (str_int n) =
        All-map _ _ (str_int n) (λ c h. u.ascii_decimal c h.0 h.1) (str_int-All n) in
      subst (λ w. First (plus decimal) (at (w ++ r) g) (at r g)) (sym e)
        (First-plus decimal d s r g (subst (All (λ c. u.is_decimal c ≡ true)) e digits) stop)

  -- The match at the start of the text is what a search finds.
  pub search-First :
      (p : Regex) (w r : Text) (g : List (ℕ × Text))
      → First p (start (w ++ r)) (at r g)
      → search_pattern u p (w ++ r) ≡ some (record { whole = w; groups = g })
  search-First p w r g h = found (w ++ r) refl h
    where
      whole :
          (s : Text)
          → s ≡ w ++ r
          → ◌≡◌ {A = Option (Found u)}
              (some (record { whole = taken s r; groups = g }))
              (some (record { whole = w; groups = g }))
      whole s same = rw (same, taken-append w r) refl

      found :
          (s : Text)
          → s ≡ w ++ r
          → First p (start s) (at r g)
          → search_pattern u p s ≡ some (record { whole = w; groups = g })
      found [] same h = unfold search_pattern in rw h.before_others (whole [] same)
      found (c ∷ s) same h = unfold search_pattern in rw h.before_others (whole (c ∷ s) same)
