-- ===== src/Parsers/Options/Places.antt =====
-- Where `parse_option_text` of backend/app/parsers/regex_parser.py reads: each of its results stands
-- in the normalized text.
use price_checker.Base.{
  ℕ, ◌≡◌, refl, sym, subst, ◌++◌, Text, codes, Option, none, some, Unicode, strip, [], ◌∷◌, ◌*◌,
}
use price_checker.Errors.{Result, ok, err, and_then-eq-ok}
use price_checker.Floats.{Floats}
use price_checker.Regex.{Regex, Found, search_pattern, group_of}
use price_checker.Regex.Search.{Finds, search_pattern-Finds}
use price_checker.Parsers.Units.{UnitCode, convert_to_base}
use price_checker.Parsers.Patterns.{
  parenthesis_detail, n_by_m_with_total, volume_x_count, volume_space_count, simple_count,
  bonus_combo, comma_combo,
}
use price_checker.Parsers.Options.{
  ParseResult, normalize, text_of, or_next, on_match, on_unit, to_int, to_float, by_amount,
  by_parenthesis, per_piece, by_comma, total_of, by_packs, by_volume_times, by_volume_count,
  by_bonus, by_count, explicit_total, by_patterns, parse_visible, parse_option_text,
}

-- A result that a pattern has given, of a part of the text.
abbrev pub ReadIn : {F : Type 0} → Text → ParseResult F → Type 0
ReadIn text r =
    ((before after : Text) × (text ≡ before ++ (r.raw_match ++ after)))
    × (r.confidence ≡ codes "rule")

module _ {F : Type 0} (fl : Floats F) (u : Unicode) where
  abbrev OfMatch : Found u → ParseResult F → Type 0
  OfMatch m r = (r.raw_match ≡ m.whole) × (r.confidence ≡ codes "rule")

  result :
      (m : Found u) {r q : ParseResult F}
      → OfMatch m q
      → ◌≡◌ {A = Result (Option (ParseResult F))} (ok (some q)) (ok (some r))
      → OfMatch m r
  result m {r} {q} h e = let same : q ≡ r = cc e in subst (OfMatch m) same h

  placed :
      (p : Regex) (text : Text) (f : Found u → Result (Option (ParseResult F))) (r : ParseResult F)
      → ((m : Found u) → f m ≡ ok (some r) → OfMatch m r)
      → on_match fl u (search_pattern u p text) f ≡ ok (some r)
      → ReadIn text r
  placed p text f r h e = go (search_pattern u p text) (search_pattern-Finds u p text) e
    where
      go :
          (o : Option (Found u))
          → Finds u p text o
          → on_match fl u o f ≡ ok (some r)
          → ReadIn text r
      go none _ e = absurd (cc e)
      go (some m) (before, after, same, _, _) e =
          let (raw, by_rule) = h m e in
          ((before, after, subst (λ w. text ≡ before ++ (w ++ after)) (sym raw) same), by_rule)

  of_unit :
      (m : Found u) (o : Option (UnitCode × F)) (f : UnitCode → F → Result (Option (ParseResult F)))
      (r : ParseResult F)
      → ((base : UnitCode) (x : F) → f base x ≡ ok (some r) → OfMatch m r)
      → on_unit fl u o f ≡ ok (some r)
      → OfMatch m r
  of_unit m none f r h e = absurd (cc e)
  of_unit m (some (base, x)) f r h e = h base x e

  per_piece-OfMatch :
      (packs : ℕ → ℕ) (m : Found u) (r : ParseResult F)
      → per_piece fl u packs m ≡ ok (some r)
      → OfMatch m r
  unfolding per_piece
  per_piece-OfMatch packs m r e =
      let (count, _, e₁) = and_then-eq-ok (to_int fl u (text_of 3 m.groups)) _ e in
      of_unit m (by_amount fl u m) _ r
        (λ base each e₂.
          let (n, _, e₃) = and_then-eq-ok (to_float fl u count) _ e₂ in result m (refl, refl) e₃)
        e₁

  parenthesis-In :
      (text : Text) (r : ParseResult F) → by_parenthesis fl u text ≡ ok (some r) → ReadIn text r
  unfolding by_parenthesis
  parenthesis-In text r =
      placed parenthesis_detail text _ r
        (λ m. of_unit m (by_amount fl u m) _ r (λ base x e. result m (refl, refl) e))

  pieces-In :
      (p : Regex) (text : Text) (r : ParseResult F) (packs : ℕ → ℕ)
      → on_match fl u (search_pattern u p text) (per_piece fl u packs) ≡ ok (some r)
      → ReadIn text r
  pieces-In p text r packs =
      placed p text (per_piece fl u packs) r (λ m. per_piece-OfMatch packs m r)

  packs-In :
      (total : Option ℕ) (text : Text) (r : ParseResult F)
      → by_packs fl u total text ≡ ok (some r)
      → ReadIn text r
  unfolding by_packs
  packs-In total text r = placed n_by_m_with_total text _ r λ m e.
      let (per_pack, _, e₁) = and_then-eq-ok (to_int fl u (text_of 1 m.groups)) _ e in
      let (packs, _, e₂) = and_then-eq-ok (to_int fl u (text_of 3 m.groups)) _ e₁ in
      let (pieces, _, e₃) =
        and_then-eq-ok (total_of fl u total (group_of 5 m.groups) (per_pack * packs)) _ e₂ in
      let (n, _, e₄) = and_then-eq-ok (to_float fl u pieces) _ e₃ in result m (refl, refl) e₄

  bonus-In : (text : Text) (r : ParseResult F) → by_bonus fl u text ≡ ok (some r) → ReadIn text r
  unfolding by_bonus
  bonus-In text r = placed bonus_combo text _ r λ m e.
      let (count, _, e₁) = and_then-eq-ok (to_int fl u (text_of 1 m.groups)) _ e in
      let (bonus, _, e₂) = and_then-eq-ok (to_int fl u (text_of 3 m.groups)) _ e₁ in
      let (n, _, e₃) = and_then-eq-ok (to_float fl u count) _ e₂ in result m (refl, refl) e₃

  count-In : (text : Text) (r : ParseResult F) → by_count fl u text ≡ ok (some r) → ReadIn text r
  unfolding by_count
  count-In text r = placed simple_count text _ r λ m e.
      let (count, _, e₁) = and_then-eq-ok (to_int fl u (text_of 1 m.groups)) _ e in
      let (n, _, e₂) = and_then-eq-ok (to_float fl u count) _ e₁ in
      of_unit m (convert_to_base fl u n (text_of 2 m.groups)) _ r
        (λ base x e₃. result m (refl, refl) e₃) e₂

  either :
      (text : Text) (a b : Result (Option (ParseResult F))) (r : ParseResult F)
      → (a ≡ ok (some r) → ReadIn text r)
      → (b ≡ ok (some r) → ReadIn text r)
      → or_next a b ≡ ok (some r)
      → ReadIn text r
  either text (ok none) b r ha hb e = hb e
  either text (ok (some q)) b r ha hb e = ha e
  either text (err x) b r ha hb e = absurd (cc e)

  patterns-In :
      (total : Option ℕ) (text : Text) (r : ParseResult F)
      → by_patterns fl u total text ≡ ok (some r)
      → ReadIn text r
  unfolding by_patterns by_comma by_volume_times by_volume_count
  patterns-In total text r = either text _ _ r (parenthesis-In text r) (
      either text _ _ r (pieces-In comma_combo text r (λ _. 1)) (
        either text _ _ r (packs-In total text r) (
          either text _ _ r (pieces-In volume_x_count text r (λ n. n)) (
            either text _ _ r (pieces-In volume_space_count text r (λ _. 1))
              (either text _ _ r (bonus-In text r) (count-In text r))))))

  -- A result of the parser has as its match a part of the normalized text, and the confidence
  -- of a rule.
  pub parse-ReadIn :
      (text : Text) (r : ParseResult F)
      → parse_option_text fl u text ≡ ok (some r)
      → ReadIn (normalize text) r
  unfolding parse_option_text
  parse-ReadIn text r e = visible (strip u text) e
    where
      visible : (v : Text) → parse_visible fl u v text ≡ ok (some r) → ReadIn (normalize text) r
      visible [] e = unfold parse_visible in absurd (cc e)
      visible (c ∷ v) e =
          unfold parse_visible in
          let (total, _, rest) = and_then-eq-ok (explicit_total fl u (normalize text)) _ e in
          patterns-In total (normalize text) r rest
