-- ===== src/Collection/Normalization/Comparable.antt =====
-- Which items backend/app/price_collection/normalization.py lets into the comparison.
use price_checker.Base.{
  ℕ, true, false, ◌≡◌, refl, subst, arith, Option, none, some, scale, codes, inl, inr, ◌⊎◌,
  Bool-cases, if-true, if-false, Unicode, Text, ℤ, max,
}
use price_checker.Errors.{ok, and_then-eq-ok, ok_injective}
use price_checker.Floats.{Floats}
use price_checker.Models.Procurement.{ProcurementOrder, ResultSource}
use price_checker.Parsers.Options.{ParseResult, parse_option_text}
use price_checker.Collection.Normalization.{
  NaverShoppingItem, CanonicalCollectedResult, quantize, is_positive, normalize_parsed,
  normalize_naver_item, compute_order_unit_price,
}

module _ {F : Type 0} (fl : Floats F) (u : Unicode) (order : ProcurementOrder)
    (item : NaverShoppingItem) (version : ℕ) where
  -- What a result keeps of its item.
  abbrev pub Keeps : CanonicalCollectedResult → Type 0
  Keeps n =
      (n.product_url ≡ item.product_url)
      × (n.seller_name ≡ item.mall_name)
      × (n.external_offer_id ≡ item.product_id)
      × (n.listed_price ≡ scale 100 item.listed_price)
      × (n.source ≡ ResultSource.naver)
      × (n.source_method ≡ codes "naver_openapi")
      × (n.shipping_fee ≡ 0)
      × (n.parser_version ≡ version)

  abbrev pub IsComparable : CanonicalCollectedResult → Type 0
  IsComparable n =
      (is_positive item.listed_price ≡ true)
      × ((parsed : ParseResult F) × (parse_option_text fl u item.title ≡ ok (some parsed))
          × (n.unit_count ≡ max parsed.piece_count 1)
          × ((price : ℕ) × (compute_order_unit_price fl order item.listed_price parsed ≡ ok price)
              × (n.per_unit_price ≡ some price)))
      × (n.compare_eligible ≡ true)
      × (n.failure_code ≡ none)

  abbrev pub Refuses : CanonicalCollectedResult → Text → Type 0
  Refuses n code =
      (n.compare_eligible ≡ false)
      × (n.per_unit_price ≡ none)
      × (n.unit_count ≡ 1)
      × (n.failure_code ≡ some code)

  abbrev pub Judged : CanonicalCollectedResult → Type 0
  Judged n =
      IsComparable n
      ⊎ ((is_positive item.listed_price ≡ false) × Refuses n (codes "zero_price"))
      ⊎ ((is_positive item.listed_price ≡ true)
          × (parse_option_text fl u item.title ≡ ok none)
          × Refuses n (codes "unit_unparsed"))

  kept : (price : ℤ) → quantize item.listed_price ≡ ok price → price ≡ scale 100 item.listed_price
  unfolding quantize
  kept price e = ground arith

  judge :
      (price : ℤ) (parsed : Option (ParseResult F)) (n : CanonicalCollectedResult)
      → price ≡ scale 100 item.listed_price
      → parse_option_text fl u item.title ≡ ok parsed
      → normalize_parsed fl order item version price parsed ≡ ok n
      → Keeps n × Judged n
  unfolding normalize_parsed
  judge price none n e p h = elim (Bool-cases (is_positive item.listed_price)) [
    | inl more ↦
        subst (λ n. Keeps n × Judged n) (ok_injective h)
          (rw more (
            (refl, refl, refl, e, refl, refl, refl, refl),
            inr (inr (refl, p, (refl, refl, refl, refl))),
          ))
    | inr less ↦
        subst (λ n. Keeps n × Judged n) (ok_injective h)
          (rw less (
            (refl, refl, refl, e, refl, refl, refl, refl),
            inr (inl (refl, (refl, refl, refl, refl))),
          ))
  ]
  judge price (some parsed) n e p h = elim (Bool-cases (is_positive item.listed_price)) [
    | inl more ↦
        (let (each, priced, built) =
            and_then-eq-ok (compute_order_unit_price fl order item.listed_price parsed) _
              (if-true _ more h) in
          subst (λ n. Keeps n × Judged n) (ok_injective built)
            (
              (refl, refl, refl, e, refl, refl, refl, refl),
              inl (more, (parsed, p, refl, (each, priced, refl)), refl, refl),
            ))
    | inr less ↦
        subst (λ n. Keeps n × Judged n) (ok_injective (if-false _ less h))
          (
            (refl, refl, refl, e, refl, refl, refl, refl),
            inr (inl (less, (refl, refl, refl, refl))),
          )
  ]

  -- A result that is returned keeps its item's address, seller, number and price, comes from
  -- the Naver API and has no shipping fee. It is comparable, with the pieces that the parser
  -- found, at least 1, and the price that is computed of them; or it has no unit price and
  -- the code zero_price, where the listed price is not above 0; or it has no unit price and
  -- the code unit_unparsed, where the price is above 0 and the parser found nothing.
  pub normalize-Judged :
      (n : CanonicalCollectedResult)
      → normalize_naver_item fl u order item version ≡ ok n
      → Keeps n × Judged n
  unfolding normalize_naver_item
  normalize-Judged n h =
      let (price, quantized, rest) = and_then-eq-ok (quantize item.listed_price) _ h in
      let (parsed, read, normalized) = and_then-eq-ok (parse_option_text fl u item.title) _ rest in
      judge price parsed n (kept price quantized) read normalized
