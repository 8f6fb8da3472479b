-- ===== src/Regex/Matches.antt =====
-- What a pattern of Python's `re` matches, with no order of choices in it, and that the matcher tries
-- just these matches.
use price_checker.Base.{
  ℕ, zero, suc, ◌-◌, true, ◌≡◌, refl, sym, ap, ◌∙◌, arith, [], ◌∷◌, ◌++◌, append_assoc, Text, All,
  length, length-append, take, inl, inr, ◌⊎◌, Unicode,
}
use price_checker.Regex.{Regex, nothing, one, star, seq, alt, group, State, accepts, taken}

-- The text between the start of a text and what is left of it.
pub taken-append : (w r : Text) → taken (w ++ r) r ≡ w
taken-append w r = first w r (length (w ++ r) - length r) (omega (arith, length-append w r))
  where
    first : (w r : Text) (n : ℕ) → n ≡ length w → take n (w ++ r) ≡ w
    first [] r zero h = refl
    first [] r (suc n) h = absurd (omega arith)
    first (c ∷ w) r zero h = absurd (omega arith)
    first (c ∷ w) r (suc n) h = ap (λ t. c ∷ t) (first w r n (omega arith))

module _ (u : Unicode) where
  -- From one state to another: what each form of a pattern consumes and which groups it adds.
  abbrev pub Matches : Regex → State → State → Type 0
  Matches nothing a b = b ≡ a
  Matches (one t) a b =
      (c : ℕ) × (a.rest ≡ c ∷ b.rest) × (accepts u t c ≡ true) × (b.groups ≡ a.groups)
  Matches (star t) a b =
      (w : Text) × (a.rest ≡ w ++ b.rest)
      × All (λ c. accepts u t c ≡ true) w
      × (b.groups ≡ a.groups)
  Matches (seq p q) a b = (m : State) × Matches p a m × Matches q m b
  Matches (alt p q) a b = Matches p a b ⊎ Matches q a b
  Matches (group n p) a b =
      (m : State) × Matches p a m
      × (w : Text) × (a.rest ≡ w ++ m.rest)
      × (b ≡ record { rest = m.rest; groups = (n, w) ∷ m.groups })

  -- A match takes the start of the text.
  pub Matches-prefix :
      (p : Regex) (a b : State) → Matches p a b → (w : Text) × (a.rest ≡ w ++ b.rest)
  Matches-prefix nothing a b h = ([], ap (λ (s : State). s.rest) (sym h))
  Matches-prefix (one t) a b (c, e, _, _) = (c ∷ [], e)
  Matches-prefix (star t) a b (w, e, _, _) = (w, e)
  Matches-prefix (seq p q) a b (m, h, k) =
      let (v, e) = Matches-prefix p a m h in
      let (w, e') = Matches-prefix q m b k in
      (v ++ w, e ∙ ap (λ t. v ++ t) e' ∙ sym (append_assoc v w b.rest))
  Matches-prefix (alt p q) a b (inl h) = Matches-prefix p a b h
  Matches-prefix (alt p q) a b (inr h) = Matches-prefix q a b h
  Matches-prefix (group n p) a b (m, h, w, e, same) =
      (w, e ∙ ap (λ (s : State). w ++ s.rest) (sym same))
