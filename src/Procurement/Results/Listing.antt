-- ===== src/Procurement/Results/Listing.antt =====
-- The list of an order's results in backend/app/procurement/service.py.
use price_checker.Base.{
  ℕ, Bool, true, false, ◌≡◌, refl, arith, List, filter, filter-All, All, All-map, if◌then◌else◌,
  ◌||◌, ◌&&◌, ◌==◌, ltb, leb, sort_by, sort_by-perm, sort_by-All, sort_by-IsSorted, IsSorted,
}
use mathlib.Core.List.{Perm}
use price_checker.Errors.{Result, ok, err, pending_rollback}
use price_checker.Models.Procurement.{ProcurementResult}
use price_checker.Database.{Session, IsReadOnly, read_to, bind-IsReadOnly, or_raise-IsReadOnly}
use price_checker.Procurement.Orders.{get_order}
use price_checker.Procurement.Orders.Charges.{get_order-IsReadOnly}
use price_checker.Procurement.Results.{
  get_order_or_raise, cheapest_first, is_listed, list_results_by_order,
}

-- A list of all the results of this order and tenant, each as often as it is stored, and the
-- cheapest before the others.
abbrev pub Lists : ℕ → ℕ → Session → Result (List ProcurementResult) → Session → Type 0
Lists t o s (ok rs) s' =
    (s' ≡ s)
    × Perm rs (filter (is_listed t o) s.db.results)
    × All (λ (r : ProcurementResult). (r.order_id ≡ o) × (r.tenant_id ≡ t)) rs
    × IsSorted
        (λ (r q : ProcurementResult).
          ltb r.per_unit_price q.per_unit_price
          || (r.per_unit_price == q.per_unit_price && leb r.id q.id))
        rs
Lists t o s (err e) s' = s' ≡ s

cheapest_total : (r q : ProcurementResult) → cheapest_first r q ≡ false → cheapest_first q r ≡ true
cheapest_total r q h = ground arith

cheapest_trans :
    (r q x : ProcurementResult)
    → cheapest_first r q ≡ true
    → cheapest_first q x ≡ true
    → cheapest_first r x ≡ true
cheapest_trans r q x h k = ground arith

order-IsReadOnly : (t o : ℕ) → IsReadOnly (get_order_or_raise t o)
unfolding get_order_or_raise
order-IsReadOnly t o =
    bind-IsReadOnly (get_order t o) _ (get_order-IsReadOnly t o) (λ a. or_raise-IsReadOnly a _)

belongs :
    (t o : ℕ) (r : ProcurementResult)
    → is_listed t o r ≡ true
    → (r.order_id ≡ o) × (r.tenant_id ≡ t)
belongs t o r h = ground arith

listing :
    (t o : ℕ) (xs : List ProcurementResult)
    → let rs = sort_by cheapest_first (filter (is_listed t o) xs) in
      Perm rs (filter (is_listed t o) xs)
      × All (λ (r : ProcurementResult). (r.order_id ≡ o) × (r.tenant_id ≡ t)) rs
      × IsSorted cheapest_first rs
listing t o xs =
    let mine = filter (is_listed t o) xs in
    (
      sort_by-perm cheapest_first mine,
      sort_by-All cheapest_first _ mine
          (All-map _ _ mine (λ r h. belongs t o r h) (filter-All (is_listed t o) xs)),
      sort_by-IsSorted cheapest_first cheapest_total cheapest_trans mine,
    )

-- The list of an order has just the results of this order and tenant, each as often as it is
-- stored, a cheaper one before a dearer one, and of equal prices the one with the smaller id
-- first. The session stays as it is, also where the call raises.
pub list_results-Lists :
    (t o : ℕ) (s : Session)
    → let (result, s') = list_results_by_order t o s in Lists t o s result s'
unfolding list_results_by_order
list_results-Lists t o s =
    read_to (Lists t o s) (get_order_or_raise t o) _ s (order-IsReadOnly t o) (λ _. refl)
      λ _ _. answer s.active
  where
    answer :
        (b : Bool)
        → let rs = sort_by cheapest_first (filter (is_listed t o) s.db.results) in
          Lists t o s (if b then ok rs else err pending_rollback) s
    answer true = let (same, own, sorted) = listing t o s.db.results in (refl, same, own, sorted)
    answer false = refl
