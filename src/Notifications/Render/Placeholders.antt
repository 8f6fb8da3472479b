-- ===== src/Notifications/Render/Placeholders.antt =====
-- What `_render_text` of backend/app/notifications/service.py makes of plain text and placeholders.
use price_checker.Base.{
  ℕ, ◌-◌, true, false, ◌≡◌, ◌≢◌, refl, sym, arith, [], ◌∷◌, ◌++◌, append_assoc, Text, All, length,
  length-append, some, Unicode, lstrip_none, lstrip-append, subst, Bool-cases, inl, inr,
}
use price_checker.Errors.{Result, ok, err, and_then}
use price_checker.Models.Notification.{Payload, Json}
use price_checker.Notifications.Render.{
  lookup, py_str, is_letter, is_name_char, take_name, drop_name, placeholder, substitute,
  render_text,
}

-- A placeholder with a text before and behind its name, and the text behind it.
abbrev pub braced : Text → Text → Text → Text → Text
braced l name r rest = b'{' ∷ b'{' ∷ (l ++ (name ++ (r ++ b'}' ∷ b'}' ∷ rest)))

and_then_ok : (r : Result Text) → r ≡ and_then r (λ t. ok t)
and_then_ok (ok t) = refl
and_then_ok (err e) = refl

module _ (u : Unicode) (variables : Payload) where
  -- Text with no brace stands as it is, before what the rest renders to.
  substitute_plain :
      (s rest : Text)
      → All (λ c. c ≢ b'{') s
      → substitute u variables 0 (s ++ rest)
        ≡ and_then (substitute u variables 0 rest) (λ t. ok (s ++ t))
  unfolding substitute placeholder
  substitute_plain [] rest h = and_then_ok (substitute u variables 0 rest)
  substitute_plain (c ∷ s) rest h = ground (arith, substitute_plain s rest h.1)

  take_name-append :
      (name rest : Text)
      → All (λ c. is_name_char c ≡ true) name
      → take_name rest ≡ []
      → drop_name rest ≡ rest
      → (take_name (name ++ rest) ≡ name) × (drop_name (name ++ rest) ≡ rest)
  take_name-append [] rest h e d = (e, d)
  take_name-append (c ∷ name) rest h e d = ground (arith, take_name-append name rest h.1 e d)

  skipped :
      (s rest : Text)
      → substitute u variables (length s) (s ++ rest) ≡ substitute u variables 0 rest
  unfolding substitute
  skipped [] rest = refl
  skipped (c ∷ s) rest = skipped s rest

  name_char_visible : (c : ℕ) → is_name_char c ≡ true → u.is_space c ≡ false
  name_char_visible c h = u.graphic_not_space c (ground arith) (ground arith)

  letter_is_name_char : (c : ℕ) → is_letter c ≡ true → is_name_char c ≡ true
  letter_is_name_char c h = ground arith

  -- A name ends before spaces and closing braces.
  name_ends :
      (r rest : Text)
      → All (λ c. u.is_space c ≡ true) r
      → (take_name (r ++ b'}' ∷ rest) ≡ []) × (drop_name (r ++ b'}' ∷ rest) ≡ r ++ b'}' ∷ rest)
  name_ends [] rest h = (refl, refl)
  name_ends (c ∷ r) rest h = elim (Bool-cases (is_name_char c)) [
    | inl t ↦ absurd (cc (name_char_visible c t, h.0))
    | inr f ↦ (rw f refl, rw f refl)
  ]

  -- A placeholder is read as one.
  placeholder_lem :
      (l : Text) (c : ℕ) (name r rest : Text)
      → All (λ c. u.is_space c ≡ true) l
      → is_letter c ≡ true
      → All (λ c. is_name_char c ≡ true) name
      → All (λ c. u.is_space c ≡ true) r
      → placeholder u (braced l (c ∷ name) r rest) ≡ some (c ∷ name, rest)
  unfolding placeholder
  placeholder_lem l c name r rest before letter chars behind =
      let (none_taken, none_dropped) = name_ends r (b'}' ∷ rest) behind in
      let (taken, dropped) =
        take_name-append (c ∷ name) (r ++ b'}' ∷ b'}' ∷ rest) (letter_is_name_char c letter, chars)
          none_taken none_dropped in
      ground (
        arith,
        lstrip-append u l (c ∷ (name ++ (r ++ b'}' ∷ b'}' ∷ rest))) before,
        lstrip_none u c (name ++ (r ++ b'}' ∷ b'}' ∷ rest))
            (name_char_visible c (letter_is_name_char c letter)),
        taken,
        dropped,
        lstrip-append u r (b'}' ∷ b'}' ∷ rest) behind,
        lstrip_none u b'}' (b'}' ∷ rest) (u.graphic_not_space b'}' (omega arith) (omega arith)),
      )

  -- What is skipped of a placeholder behind its first brace.
  inside : Text → Text → Text → Text
  inside l name r = b'{' ∷ (l ++ (name ++ (r ++ b'}' ∷ b'}' ∷ [])))

  inside-append :
      (l name r rest : Text)
      → b'{' ∷ (l ++ (name ++ (r ++ b'}' ∷ b'}' ∷ rest))) ≡ inside l name r ++ rest
  unfolding inside
  inside-append l name r rest =
      rw
        (
          append_assoc l (name ++ (r ++ b'}' ∷ b'}' ∷ [])) rest,
          append_assoc name (r ++ b'}' ∷ b'}' ∷ []) rest,
          append_assoc r (b'}' ∷ b'}' ∷ []) rest,
        )
        refl

  skip_rest :
      (xs rest : Text)
      → substitute u variables (length (xs ++ rest) - length rest) (xs ++ rest)
        ≡ substitute u variables 0 rest
  skip_rest xs rest =
      let n : length (xs ++ rest) - length rest ≡ length xs =
        omega (arith, length-append xs rest) in
      rw n (skipped xs rest)

  -- A placeholder at the start: its value, or the exception that names it.
  substitute_variable :
      (l : Text) (c : ℕ) (name r rest : Text) (value : Json)
      → All (λ c. u.is_space c ≡ true) l
      → is_letter c ≡ true
      → All (λ c. is_name_char c ≡ true) name
      → All (λ c. u.is_space c ≡ true) r
      → lookup (c ∷ name) variables ≡ some value
      → substitute u variables 0 (braced l (c ∷ name) r rest)
        ≡ and_then (substitute u variables 0 rest) (λ t. ok (py_str value ++ t))
  unfolding substitute
  substitute_variable l c name r rest value before letter chars behind found = ground (
    arith,
    placeholder_lem l c name r rest before letter chars behind,
    subst (λ t. substitute u variables (length t - length rest) t ≡ substitute u variables 0 rest)
        (sym (inside-append l (c ∷ name) r rest)) (skip_rest (inside l (c ∷ name) r) rest),
    found,
  )

  -- A text without opening braces, then a placeholder of a variable that is given, with or
  -- without spaces around the name, then any text, renders to the first text, the value of
  -- the variable and what the last text renders to; where the last text is refused, so is the
  -- whole.
  pub render_text-append :
      (s l : Text) (c : ℕ) (name r rest : Text) (value : Json)
      → All (λ c. c ≢ b'{') s
      → All (λ c. u.is_space c ≡ true) l
      → is_letter c ≡ true
      → All (λ c. is_name_char c ≡ true) name
      → All (λ c. u.is_space c ≡ true) r
      → lookup (c ∷ name) variables ≡ some value
      → render_text u (s ++ braced l (c ∷ name) r rest) variables
        ≡ and_then (render_text u rest variables) (λ t. ok (s ++ (py_str value ++ t)))
  unfolding render_text
  render_text-append s l c name r rest value plain before letter chars behind found =
      rw
        (
          substitute_plain s (braced l (c ∷ name) r rest) plain,
          substitute_variable l c name r rest value before letter chars behind found,
        )
        (ground arith)
