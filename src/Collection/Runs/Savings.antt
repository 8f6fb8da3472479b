-- ===== src/Collection/Runs/Savings.antt =====
-- What an item that cannot be compared does to the savings: backend/app/price_collection/service.py
-- stores it at the price 0, and backend/app/procurement/service.py takes the lowest price.
use price_checker.Base.{
  ℕ, ◌-◌, ◌*◌, ◌≤◌, Bool, true, false, not, ==_refl, ◌≡◌, refl, subst, ap, ◌∙◌, arith, List, [],
  ◌∷◌, filter, any, All, none, some, inl, inr, Bool-cases, Unicode, Text, if◌then◌else◌,
}
use native.Mathlib.Nat.{mul-le-mul_right}
use price_checker.Errors.{ok, and_then-eq-ok, ok_injective}
use price_checker.Floats.{Floats}
use price_checker.Models.Procurement.{
  ProcurementOrder, ProcurementResult, ResultSource, is_completed,
}
use price_checker.Models.Collection.{PriceCollectionJob}
use price_checker.Database.{Session, Orm}
use price_checker.Procurement.Savings.{is_result, saving_of}
use price_checker.Procurement.Savings.Best.{saving_of-Best}
use price_checker.Collection.Jobs.{is_order, build_query}
use price_checker.Collection.Jobs.Lookup.{is_job}
use price_checker.Collection.Normalization.{
  NaverShoppingItem, CanonicalCollectedResult, normalize_naver_item,
}
use price_checker.Collection.Normalization.Comparable.{normalize-Judged, Judged}
use price_checker.Collection.Runs.{Searched, found, normalize_all, run_job, is_canonical, or_zero}
use price_checker.Collection.Runs.Rows.{Rows}
use price_checker.Collection.Runs.Canonical.{OwnRows, run_job-Replaces}

module _ {A : Type 0} where
  unfiltered {ℓ} :
      (P : A → Type ℓ) (p : A → Bool) (xs : List A)
      → All P (filter p xs)
      → All (λ x. p x ≡ true → P x) xs
  unfiltered P p [] h = tt
  unfiltered P p (x ∷ xs) h = elim (Bool-cases (p x)) [
    | inl t ↦
        (let both : All P (x ∷ filter p xs) =
            subst (λ b. All P (if b then x ∷ filter p xs else filter p xs)) t h in
          (λ _. both.0, unfiltered P p xs both.1))
    | inr f ↦ (
      (λ t. absurd (cc (t, f))),
      unfiltered P p xs (subst (λ b. All P (if b then x ∷ filter p xs else filter p xs)) f h),
    )
  ]

  filtered {ℓ} : (P : A → Type ℓ) (p : A → Bool) (xs : List A) → All P xs → All P (filter p xs)
  filtered P p [] h = tt
  filtered P p (x ∷ xs) h = elim (Bool-cases (p x)) [
    | inl t ↦ rw t (h.0, filtered P p xs h.1)
    | inr f ↦ rw f (filtered P p xs h.1)
  ]

abbrev pub is_refused : CanonicalCollectedResult → Bool
is_refused n = not n.compare_eligible

module _ {F : Type 0} (fl : Floats F) (orm : Orm) (u : Unicode) (order : ProcurementOrder)
    (v : ℕ) where
  unpriced :
      (item : NaverShoppingItem) (n : CanonicalCollectedResult)
      → Judged fl u order item v n
      → n.compare_eligible ≡ false
      → n.per_unit_price ≡ none
  unpriced item n (inl (_, _, e, _)) f = absurd (cc (e, f))
  unpriced item n (inr (inl (_, (_, price, _, _)))) f = price
  unpriced item n (inr (inr (_, _, (_, price, _, _)))) f = price

  all_unpriced :
      (items : List NaverShoppingItem) (ns : List CanonicalCollectedResult)
      → normalize_all fl orm u order v items ≡ ok ns
      → All
          (λ (n : CanonicalCollectedResult). n.compare_eligible ≡ false → n.per_unit_price ≡ none)
          ns
  unfolding normalize_all
  all_unpriced [] ns e =
      subst
        (All
          (λ (n : CanonicalCollectedResult). n.compare_eligible ≡ false → n.per_unit_price ≡ none))
        (ok_injective e) tt
  all_unpriced (item ∷ items) ns e =
      let (n, one, e₁) = and_then-eq-ok (normalize_naver_item fl u order item v) _ e in
      let (more, rest, e₂) = and_then-eq-ok (normalize_all fl orm u order v items) _ e₁ in
      subst
        (All
          (λ (n : CanonicalCollectedResult). n.compare_eligible ≡ false → n.per_unit_price ≡ none))
        (ok_injective e₂)
        (unpriced item n (normalize-Judged fl u order item v n one).1, all_unpriced items more rest)

  -- A refused result's row has the price 0.
  row_at_zero :
      (t i target least : ℕ) (ns : List CanonicalCollectedResult) (rows : List ProcurementResult)
      → any is_refused ns ≡ true
      → All
          (λ (n : CanonicalCollectedResult). n.compare_eligible ≡ false → n.per_unit_price ≡ none)
          ns
      → Rows t order i ns rows
      → All
          (λ (r : ProcurementResult).
            is_result t order.id r ≡ true → (target - r.per_unit_price) * order.quantity ≤ least)
          rows
      → target * order.quantity ≤ least
  row_at_zero t i target least [] rows e h are below = absurd (cc e)
  row_at_zero t i target least (n ∷ ns) [] e h are below = absurd are
  row_at_zero t i target least (n ∷ ns) (r ∷ rs) e h
        ((tenant, of, _, _, _, _, _, price, _, _, _), are) below =
      elim (Bool-cases n.compare_eligible) [
        | inl eligible ↦ row_at_zero t i target least ns rs (rw eligible at e) h.1 are below.1
        | inr refused ↦
            (let zero_price : r.per_unit_price ≡ 0 = price ∙ ap or_zero (h.0 refused) in
              let least_saving : (target - r.per_unit_price) * order.quantity ≤ least =
                below.0 (rw (tenant, of, ==_refl t, ==_refl order.id) refl) in
              subst (λ m. m * order.quantity ≤ least) (omega (arith, zero_price)) least_saving)
      ]

module _ {F : Type 0} (fl : Floats F) (orm : Orm) (u : Unicode)
    (retry_from attempted_at collected_at base : ℕ) (t version : ℕ) where
  whole_target :
      (s : Session) (order : ProcurementOrder) (target : ℕ)
      → order.target_unit_price ≡ some target
      → target * order.quantity ≤ saving_of t s.db order
      → saving_of t s.db order ≡ target * order.quantity
  whole_target s order target wish most = elim (saving_of-Best t s.db order target wish).1 [
    | inl none_saved ↦ omega (arith, most, none_saved)
    | inr (r, _, saved) ↦ omega (
      arith,
      most,
      saved,
      mul-le-mul_right {m = target - r.per_unit_price} {n = target} order.quantity (omega arith),
    )
  ]

  -- After such a run of a job of Naver for an order with a target price that is not
  -- completed, where one of the items cannot be compared, the report counts for the order the
  -- whole target price as saved, for each of its pieces: the item's result is stored at the
  -- price 0.
  pub run_job-saving_of :
      (search : Text → Searched) (s : Session) (job : PriceCollectionJob) (order : ProcurementOrder)
      (items : List NaverShoppingItem) (ns : List CanonicalCollectedResult) (target : ℕ)
      → s.active ≡ true
      → filter (is_job t job.id) s.db.jobs ≡ job ∷ []
      → filter (is_order t job.order_id) s.db.orders ≡ order ∷ []
      → is_completed order.status ≡ false
      → job.source ≡ ResultSource.naver
      → OwnRows t order job s.db
      → search (build_query u order) ≡ found items
      → normalize_all fl orm u order version items ≡ ok ns
      → order.target_unit_price ≡ some target
      → any is_refused ns ≡ true
      → let (_, s') =
          run_job fl orm u retry_from attempted_at collected_at base job.id t search version s in
        saving_of t s'.db order ≡ target * order.quantity
  run_job-saving_of search s job order items ns target active only_job only_order unfinished naver
        own searched normalized wish refused =
      let (_, are, _, _) =
        run_job-Replaces fl orm u retry_from attempted_at collected_at base t version search s job
          order items ns active only_job only_order unfinished naver own searched normalized in
      let s' =
        (run_job fl orm u retry_from attempted_at collected_at base job.id t search version s).1 in
      let ours = is_canonical t order.id job.source in
      whole_target s' order target wish (
        row_at_zero fl orm u order version t job.id target (saving_of t s'.db order) ns
          (filter ours s'.db.results) refused
          (all_unpriced fl orm u order version items ns normalized) are
          (filtered _ ours s'.db.results (
            unfiltered _ (is_result t order.id) s'.db.results
              (saving_of-Best t s'.db order target wish).0)))
