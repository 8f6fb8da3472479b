-- ===== src/Parsers/UnitPrice/Trust.antt =====
-- When backend/app/parsers/unit_price.py trusts a price.
use price_checker.Base.{
  ℕ, ◌∙◌, ℤ, ◌+ℤ◌, to_nat, true, false, ◌≡◌, ◌↔◌, refl, sym, subst, arith, Option, none, some, Text,
  codes, text_eq, text_eq_sound, inl, inr, Bool-cases, if-true, if-false,
}
use price_checker.Errors.{ok, and_then-eq-ok, or_overflow, ok_injective}
use price_checker.Floats.{Floats}
use price_checker.Parsers.Options.{ParseResult}
use price_checker.Parsers.Units.{display_base}
use price_checker.Parsers.UnitPrice.{
  UnitPrice, Confidence, base_confidence, confidence_for, calculate_unit_price, priced,
}

not_both : (s : Text) → text_eq s (codes "llm") ≡ true → text_eq s (codes "rule") ≡ true → ⊥
not_both s l r = clash s (text_eq_sound s (codes "llm") l) r
  where
    clash : (s : Text) → s ≡ codes "llm" → text_eq s (codes "rule") ≡ true → ⊥
    clash s e r = unfold text_eq in absurd (cc (rw e at r))

module _ {F : Type 0} where
  -- A quantity that a pattern has found, with a shipping fee that is known.
  abbrev pub IsCertain : ParseResult F → Text → Type 0
  IsCertain parsed shipping =
      (text_eq parsed.confidence (codes "rule") ≡ true)
      × (text_eq shipping (codes "estimated") ≡ false)
      × (text_eq shipping (codes "unknown") ≡ false)

  certain :
      (parsed : ParseResult F) (shipping : Text)
      → (confidence_for (some parsed) shipping ≡ Confidence.high) ↔ IsCertain parsed shipping
  unfolding confidence_for base_confidence
  certain parsed shipping = ground (arith, not_both parsed.confidence)

module _ {F : Type 0} (fl : Floats F) where
  abbrev pub IsTrusted : Option (ParseResult F) → Text → Type 0
  IsTrusted none shipping = ⊥
  IsTrusted (some parsed) shipping =
      (fl.positive parsed.unit_quantity ≡ true) × IsCertain parsed shipping

  priced_lem :
      (total : ℕ) (parsed : ParseResult F) (shipping : Text) (r : UnitPrice F)
      → priced fl total parsed shipping ≡ ok r
      → (r.total_price ≡ total) × (r.unit_price_confidence ≡ confidence_for (some parsed) shipping)
  unfolding priced
  priced_lem total parsed shipping r e =
      let (price, _, e₁) = and_then-eq-ok (or_overflow (fl.of_nat total)) _ e in
      let (base, _, e₂) =
        and_then-eq-ok (or_overflow (fl.of_nat (display_base parsed.unit).0)) _ e₁ in
      subst
        (λ (r : UnitPrice F).
          (r.total_price ≡ total)
          × (r.unit_price_confidence ≡ confidence_for (some parsed) shipping))
        (ok_injective e₂) (refl, refl)

  -- A unit price that is returned has as its total the price with the shipping fee, or 0
  -- where the sum is less; and its confidence is high just where there is a positive quantity
  -- that a rule has found and the confidence in shipping is neither estimated nor unknown.
  pub calculate-Trusted :
      (option_price shipping_fee : ℤ) (parsed : Option (ParseResult F)) (shipping : Text)
      (r : UnitPrice F)
      → calculate_unit_price fl option_price shipping_fee parsed shipping ≡ ok r
      → (r.total_price ≡ to_nat (option_price +ℤ shipping_fee))
        × ((r.unit_price_confidence ≡ Confidence.high) ↔ IsTrusted parsed shipping)
  unfolding calculate_unit_price
  calculate-Trusted a b none shipping r e =
      subst
        (λ (r : UnitPrice F).
          (r.total_price ≡ to_nat (a +ℤ b)) × ((r.unit_price_confidence ≡ Confidence.high) ↔ ⊥))
        (ok_injective e) (refl, (λ low. absurd (cc low), λ x. absurd x))
  calculate-Trusted a b (some parsed) shipping r e =
      elim (Bool-cases (fl.positive parsed.unit_quantity)) [
        | inl more ↦
            (let (total, same) =
                priced_lem (to_nat (a +ℤ b)) parsed shipping r (if-true _ more e) in
              let (there, back) = certain parsed shipping in
              (total, (λ high. (more, there (sym same ∙ high)), λ h. same ∙ back h.1)))
        | inr zero ↦
            subst
              (λ (r : UnitPrice F).
                (r.total_price ≡ to_nat (a +ℤ b))
                × ((r.unit_price_confidence ≡ Confidence.high) ↔ IsTrusted (some parsed) shipping))
              (ok_injective (if-false _ zero e))
              (refl, (λ low. absurd (cc low), λ h. absurd (cc (h.0, zero))))
      ]
