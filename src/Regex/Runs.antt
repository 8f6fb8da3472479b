-- ===== src/Regex/Runs.antt =====
-- The matcher tries just the matches of a pattern.
use price_checker.Base.{
  ℕ, Bool, true, false, ◌≡◌, ◌↔◌, refl, sym, ap, subst, ◌∙◌, List, [], ◌∷◌, ◌++◌, map, Text, All,
  ap, inl, inr, Bool-cases, if◌then◌else◌, Unicode, In, In-append_left, In-append_right, In-append,
  In-concat_map, concat_map-In, In-map, map-In,
}
use price_checker.Regex.{
  Test, Regex, nothing, one, star, seq, alt, group, State, accepts, taken, step, repeat, close,
  runs,
}
use price_checker.Regex.Matches.{Matches, Matches-prefix, taken-append}

module _ (u : Unicode) where
  step_sound :
      (t : Test) (a b : State) (s : Text)
      → a.rest ≡ s
      → In b (step u t s a.groups)
      → Matches u (one t) a b
  unfolding step
  step_sound t a b [] e h = elim h [ ]
  step_sound t a b (c ∷ s) e h = split (accepts u t c) refl h
    where
      split :
          (y : Bool)
          → accepts u t c ≡ y
          → In b (if y then record { rest = s; groups = a.groups } ∷ [] else [])
          → Matches u (one t) a b
      split true y (inl same) =
          (c, e ∙ ap (λ (m : State). c ∷ m.rest) (sym same), y, ap (λ (m : State). m.groups) same)
      split true y (inr no_more) = elim no_more [ ]
      split false y h = elim h [ ]

  step_complete :
      (t : Test) (c : ℕ) (s : Text) (g : List (ℕ × Text))
      → accepts u t c ≡ true
      → In (record { rest = s; groups = g }) (step u t (c ∷ s) g)
  unfolding step
  step_complete t c s g h = rw h (inl refl)

  -- What a repetition leaves.
  abbrev Repeats : Test → Text → List (ℕ × Text) → State → Type 0
  Repeats t s g b =
      (w : Text) × (s ≡ w ++ b.rest) × All (λ c. accepts u t c ≡ true) w × (b.groups ≡ g)

  stops :
      (t : Test) (s : Text) (g : List (ℕ × Text)) (b : State)
      → In b (record { rest = s; groups = g } ∷ [])
      → Repeats t s g b
  stops t s g b (inl same) =
      ([], ap (λ (m : State). m.rest) (sym same), tt, ap (λ (m : State). m.groups) same)
  stops t s g b (inr no_more) = elim no_more [ ]

  repeat_sound :
      (t : Test) (s : Text) (g : List (ℕ × Text)) (b : State)
      → In b (repeat u t s g)
      → Repeats t s g b
  unfolding repeat
  repeat_sound t [] g b h = stops t [] g b h
  repeat_sound t (c ∷ s) g b h = split (accepts u t c) refl (λ l. repeat_sound t s g b l) h
    where
      split :
          (y : Bool)
          → accepts u t c ≡ y
          → (In b (repeat u t s g) → Repeats t s g b)
          → In b (
              if y
              then repeat u t s g ++ record { rest = c ∷ s; groups = g } ∷ []
              else record { rest = c ∷ s; groups = g } ∷ [])
          → Repeats t (c ∷ s) g b
      split true y more h = elim (In-append b (repeat u t s g) _ h) [
        | inl l ↦
            (let (w, e, accepted, same) = more l in (c ∷ w, ap (λ r. c ∷ r) e, (y, accepted), same))
        | inr r ↦ stops t (c ∷ s) g b r
      ]
      split false y more h = stops t (c ∷ s) g b h

  repeat_complete :
      (t : Test) (w r : Text) (g : List (ℕ × Text))
      → All (λ c. accepts u t c ≡ true) w
      → In (record { rest = r; groups = g }) (repeat u t (w ++ r) g)
  unfolding repeat
  repeat_complete t [] [] g h = inl refl
  repeat_complete t [] (c ∷ r) g h = elim (Bool-cases (accepts u t c)) [
    | inl y ↦ rw y (In-append_right _ (repeat u t r g) _ (inl refl))
    | inr n ↦ rw n (inl refl)
  ]
  repeat_complete t (c ∷ w) r g h =
      rw h.0 (In-append_left _ (repeat u t (w ++ r) g) _ (repeat_complete t w r g h.1))

  -- Every state that the matcher tries is one of a match.
  pub runs_sound : (p : Regex) (a b : State) → In b (runs u p a) → Matches u p a b
  unfolding runs
  runs_sound nothing a b (inl e) = e
  runs_sound nothing a b (inr no_more) = elim no_more [ ]
  runs_sound (one t) a b h = step_sound t a b a.rest refl h
  runs_sound (star t) a b h = repeat_sound t a.rest a.groups b h
  runs_sound (seq p q) a b h =
      let (m, i, j) = In-concat_map (runs u q) (runs u p a) b h in
      (m, runs_sound p a m i, runs_sound q m b j)
  runs_sound (alt p q) a b h = elim (In-append b (runs u p a) (runs u q a) h) [
    | inl l ↦ inl (runs_sound p a b l)
    | inr r ↦ inr (runs_sound q a b r)
  ]
  runs_sound (group n p) a b h =
      let (m, i, e) = In-map (close u n a.rest) (runs u p a) b h in
      let found = runs_sound p a m i in
      let (w, split) = Matches-prefix u p a m found in
      (
        m,
        found,
        w,
        split,
        e
            ∙ ap (λ v. record { rest = m.rest; groups = (n, v) ∷ m.groups })
                (ap (λ s. taken s m.rest) split ∙ taken-append w m.rest),
      )

  -- Every match is tried.
  pub runs_complete : (p : Regex) (a b : State) → Matches u p a b → In b (runs u p a)
  unfolding runs
  runs_complete nothing a b e = inl e
  runs_complete (one t) a b (c, e, y, same) =
      rw e (subst (λ g. In b (step u t (c ∷ b.rest) g)) same (step_complete t c b.rest b.groups y))
  runs_complete (star t) a b (w, e, y, same) =
      rw e (
        subst (λ g. In b (repeat u t (w ++ b.rest) g)) same (repeat_complete t w b.rest b.groups y))
  runs_complete (seq p q) a b (m, h, k) =
      concat_map-In (runs u q) (runs u p a) m b (runs_complete p a m h) (runs_complete q m b k)
  runs_complete (alt p q) a b (inl h) =
      In-append_left b (runs u p a) (runs u q a) (runs_complete p a b h)
  runs_complete (alt p q) a b (inr h) =
      In-append_right b (runs u p a) (runs u q a) (runs_complete q a b h)
  runs_complete (group n p) a b (m, h, w, e, same) =
      subst (λ x. In x (map (close u n a.rest) (runs u p a)))
        (ap (λ v. record { rest = m.rest; groups = (n, v) ∷ m.groups })
            (ap (λ s. taken s m.rest) e ∙ taken-append w m.rest)
          ∙ sym same)
        (map-In (close u n a.rest) (runs u p a) m (runs_complete p a m h))

  -- The matcher tries just the matches of a pattern.
  pub runs_iff : (p : Regex) (a b : State) → In b (runs u p a) ↔ Matches u p a b
  runs_iff p a b = (runs_sound p a b, runs_complete p a b)
