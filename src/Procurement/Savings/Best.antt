-- ===== src/Procurement/Savings/Best.antt =====
-- The total of the report in backend/app/procurement/service.py goes by the best price of an order.
use price_checker.Base.{
  ℕ, ◌-◌, ◌*◌, ◌≤◌, ◌≡◌, true, refl, sym, subst, arith, List, [], ◌∷◌, ◌++◌, min, filter,
  filter-append, All, All-map, filter-All, Option, none, some, inl, inr, ◌⊎◌, Bool-cases,
  append-nil, leb, if◌then◌else◌,
}
use native.Mathlib.Nat.{mul-le-mul_right}
use price_checker.Models.Procurement.{ProcurementOrder, ProcurementResult}
use price_checker.Database.{Db}
use price_checker.Procurement.Results.{add_result}
use price_checker.Procurement.Savings.{
  is_result, min_price, saving, saving_of, tally, orders_between, summary,
}

-- A price that is no worse than another one, where a missing one is the worst.
abbrev NoWorse : Option ℕ → Option ℕ → Type 0
NoWorse q none = Unit
NoWorse none (some p) = ⊥
NoWorse (some q) (some p) = q ≤ p

min_price-append :
    (rs : List ProcurementResult) (r : ProcurementResult)
    → NoWorse (min_price (rs ++ r ∷ [])) (min_price rs)
unfolding min_price
min_price-append [] r = tt
min_price-append (x ∷ rs) r = ground (arith, min_price-append rs r)

saving_mono : (target q p : Option ℕ) (n : ℕ) → NoWorse q p → saving target p n ≤ saving target q n
unfolding saving
saving_mono none q p n h = omega arith
saving_mono (some t) q none n h = omega arith
saving_mono (some t) none (some p) n h = absurd h
saving_mono (some t) (some q) (some p) n h =
    ground (arith, mul-le-mul_right {m = t - p} {n = t - q} n)

module _ (t : ℕ) where
  -- One more result adds to the savings of an order, or changes nothing.
  saving_of-add :
      (r : ProcurementResult) (d : Db) (o : ProcurementOrder)
      → saving_of t d o ≤ saving_of t (add_result r d) o
  saving_of-add r d o = elim (Bool-cases (is_result t o.id r)) [
    | inl e ↦ saving_mono o.target_unit_price _ _ o.quantity (
        rw (filter-append (is_result t o.id) d.results (r ∷ []), e)
          (min_price-append (filter (is_result t o.id) d.results) r))
    | inr e ↦
        rw
          (
            filter-append (is_result t o.id) d.results (r ∷ []),
            e,
            append-nil (filter (is_result t o.id) d.results),
          )
          (omega arith)
  ]

  tally-add :
      (r : ProcurementResult) (d : Db) (os : List ProcurementOrder) (c c' v v' : ℕ)
      → v ≤ v'
      → (tally t d os c v).1 ≤ (tally t (add_result r d) os c' v').1
  unfolding tally
  tally-add r d [] c c' v v' h = h
  tally-add r d (o ∷ os) c c' v v' h = tally-add r d os _ _ _ _ (omega (arith, saving_of-add r d o))

  -- One more result, of whatever order and tenant, never lowers the total savings of a
  -- report.
  pub total_savings-add :
      (midnight : ℕ → ℕ) (from to : Option ℕ) (r : ProcurementResult) (d : Db)
      → (summary midnight t from to d).total_savings
        ≤ (summary midnight t from to (add_result r d)).total_savings
  unfolding summary orders_between
  total_savings-add midnight from to r d = tally-add r d _ 0 0 0 0 (omega arith)

  Below : Option ℕ → List ProcurementResult → Type 0
  Below none rs = rs ≡ []
  Below (some p) rs = All (λ (r : ProcurementResult). p ≤ r.per_unit_price) rs

  min_price-Below : (rs : List ProcurementResult) → Below (min_price rs) rs
  unfolding Below min_price
  min_price-Below [] = refl
  min_price-Below (r ∷ rs) = extend r rs (min_price rs) (min_price-Below rs)
    where
      extend :
          (r : ProcurementResult) (rs : List ProcurementResult) (o : Option ℕ)
          → Below o rs
          → Below
              (elim o [ none ↦ some r.per_unit_price | some p ↦ some (min r.per_unit_price p) ])
              (r ∷ rs)
      extend r rs none h = (
        omega arith,
        subst (All (λ (x : ProcurementResult). r.per_unit_price ≤ x.per_unit_price)) (sym h) tt,
      )
      extend r rs (some p) h = (omega arith, All-map _ _ rs (λ x b. omega (arith, b)) h)

  min_price-Attained :
      (P : ProcurementResult → Type 0) (rs : List ProcurementResult) (p : ℕ)
      → All P rs
      → min_price rs ≡ some p
      → (r : ProcurementResult) × P r × (r.per_unit_price ≡ p)
  unfolding min_price
  min_price-Attained P [] p h e = absurd (cc e)
  min_price-Attained P (r ∷ rs) p h e =
      pick r rs p h e (λ q. min_price-Attained P rs q h.1) (min_price rs) refl
    where
      pick :
          (r : ProcurementResult) (rs : List ProcurementResult) (p : ℕ)
          → All P (r ∷ rs)
          → min_price (r ∷ rs) ≡ some p
          → ((q : ℕ)
              → min_price rs ≡ some q
              → (x : ProcurementResult) × P x × (x.per_unit_price ≡ q))
          → (o : Option ℕ) → min_price rs ≡ o
          → (r : ProcurementResult) × P r × (r.per_unit_price ≡ p)
      pick r rs p h e more none none_left = (r, h.0, ground arith)
      pick r rs p h e more (some q) found = elim (Bool-cases (leb r.per_unit_price q)) [
        | inl le ↦ (r, h.0, ground arith)
        | inr gt ↦ (let (x, px, price) = more q found in (x, px, ground arith))
      ]

  -- An order with a target saves at least as much as any of its results would save, and it
  -- saves nothing or what one of its results would save.
  pub saving_of-Best :
      (d : Db) (o : ProcurementOrder) (target : ℕ)
      → o.target_unit_price ≡ some target
      → All
          (λ (r : ProcurementResult). (target - r.per_unit_price) * o.quantity ≤ saving_of t d o)
          (filter (is_result t o.id) d.results)
        × ((saving_of t d o ≡ 0)
            ⊎ ((r : ProcurementResult) × (is_result t o.id r ≡ true)
                × (saving_of t d o ≡ (target - r.per_unit_price) * o.quantity)))
  saving_of-Best d o target e =
      let mine = filter (is_result t o.id) d.results in
      (largest mine (min_price mine) (min_price-Below mine), one (min_price mine) refl)
    where
      bound :
          (r : ProcurementResult) (p : ℕ)
          → p ≤ r.per_unit_price
          → (target - r.per_unit_price) * o.quantity
            ≤ (if leb target p then 0 else (target - p) * o.quantity)
      bound r p b =
          ground
            (arith, mul-le-mul_right {m = target - r.per_unit_price} {n = target - p} o.quantity)

      largest :
          (rs : List ProcurementResult) (best : Option ℕ)
          → Below best rs
          → All
              (λ (r : ProcurementResult).
                (target - r.per_unit_price) * o.quantity
                ≤ saving o.target_unit_price best o.quantity)
              rs
      largest rs none h =
          let nil : rs ≡ [] = unfold Below in h in
          subst
            (All (λ (r : ProcurementResult).
              (target - r.per_unit_price) * o.quantity
              ≤ saving o.target_unit_price none o.quantity))
            (sym nil) tt
      largest rs (some p) h = unfold Below saving in rw e (All-map _ _ rs (λ r b. bound r p b) h)

      one :
          (best : Option ℕ)
          → min_price (filter (is_result t o.id) d.results) ≡ best
          → (saving o.target_unit_price best o.quantity ≡ 0)
            ⊎ ((r : ProcurementResult) × (is_result t o.id r ≡ true)
                × (saving o.target_unit_price best o.quantity
                    ≡ (target - r.per_unit_price) * o.quantity))
      one none h = inl (unfold saving in rw e refl)
      one (some p) h = elim (Bool-cases (leb target p)) [
        | inl le ↦ inl (unfold saving in rw (e, le) refl)
        | inr gt ↦
            (let (r, mine, price) =
                min_price-Attained (λ r. is_result t o.id r ≡ true) _ p
                  (filter-All (is_result t o.id) d.results) h in
              inr (r, mine, unfold saving in rw (e, gt, price) refl))
      ]
