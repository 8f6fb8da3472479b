-- ===== src/Procurement/Orders/Pages.antt =====
-- The pages of `list_orders` of backend/app/procurement/service.py.
use price_checker.Base.{
  ℕ, ◌+◌, ◌≤◌, Bool, true, false, ◌≡◌, refl, arith, List, ◌++◌, filter, filter-All, All, All-map,
  Option, none, some, Option-cases, inl, inr, take, drop, length, length-take-le, sort_by,
  sort_by-All, sort_by-IsSorted, IsSorted, ◌||◌, ltb, leb, page-All, page-IsSorted, two_pages, sym,
  subst, sort_by-perm, length-sort_by, ◌==◌, ◌&&◌, if◌then◌else◌,
}
use mathlib.Core.List.{Perm, [], ◌∷◌}
use price_checker.Errors.{Result, ok, err, pending_rollback}
use price_checker.Models.Procurement.{ProcurementOrder, OrderStatus, order_status_code}
use price_checker.Database.{Session}
use price_checker.Procurement.Orders.{list_orders, newest_first, status_wanted, wanted}

-- A page: orders of the tenant, newest first, and no more than the limit.
abbrev pub IsPage : ℕ → ℕ → Result (List ProcurementOrder) → Type 0
IsPage t limit (ok os) =
    All (λ (o : ProcurementOrder). o.tenant_id ≡ t) os
    × IsSorted
        (λ (o p : ProcurementOrder).
          ltb p.created_at o.created_at || (o.created_at == p.created_at && leb p.id o.id))
        os
    × (length os ≤ limit)
IsPage t limit (err e) = e ≡ pending_rollback

newest_total : (o p : ProcurementOrder) → newest_first o p ≡ false → newest_first p o ≡ true
newest_total o p h = ground arith

newest_trans :
    (o p q : ProcurementOrder)
    → newest_first o p ≡ true
    → newest_first p q ≡ true
    → newest_first o q ≡ true
newest_trans o p q h k = ground arith

module _ (t : ℕ) (status : Option OrderStatus) (shop : Option ℕ) where
  abbrev selected : ProcurementOrder → Bool
  selected o = o.tenant_id == t && status_wanted status o.status && wanted shop o.shop_id

  own : (o : ProcurementOrder) → selected o ≡ true → o.tenant_id ≡ t
  own o h = ground arith

  page :
      (limit offset : ℕ) (os : List ProcurementOrder)
      → IsPage t limit (ok (take limit (drop offset (sort_by newest_first (filter selected os)))))
  page limit offset os =
      let mine = filter selected os in
      let sorted = sort_by newest_first mine in
      (
        page-All _ limit offset sorted
            (sort_by-All newest_first _ mine (All-map _ _ mine own (filter-All selected os))),
        page-IsSorted newest_first limit offset sorted
            (sort_by-IsSorted newest_first newest_total newest_trans mine),
        length-take-le limit (drop offset sorted),
      )

  -- A list of orders has orders of the tenant that asks only, the newest first and of equally
  -- new ones the one with the larger id, and no more than the limit; a call that raises does
  -- so since the session takes no statement. The session stays as it is.
  pub list_orders-IsPage :
      (limit offset : ℕ) (s : Session)
      → let (result, s') = list_orders t status shop limit offset s in
        IsPage t limit result × (s' ≡ s)
  unfolding list_orders
  list_orders-IsPage limit offset s = (answer s.active, refl)
    where
      answer :
          (b : Bool)
          → IsPage t limit (
              if b
              then ok
                  (take limit (drop offset (sort_by newest_first (filter selected s.db.orders))))
              else err pending_rollback)
      answer true = page limit offset s.db.orders
      answer false = refl

  -- The orders that a list is about.
  abbrev pub asked_for : ProcurementOrder → Bool
  asked_for o =
      o.tenant_id == t
      && elim status [ none ↦ true | some x ↦ order_status_code o.status == order_status_code x ]
      && elim shop [ none ↦ true | some i ↦ o.shop_id == i ]

  selected_lem : (o : ProcurementOrder) → selected o ≡ asked_for o
  selected_lem o = elim (Option-cases status) [
    | inl e ↦ elim (Option-cases shop) [ inl f ↦ rw (e, f) refl | inr (i, f) ↦ rw (e, f) refl ]
    | inr (x, e) ↦ elim (Option-cases shop) [ inl f ↦ rw (e, f) refl | inr (i, f) ↦ rw (e, f) refl ]
  ]

  filter-selected : (os : List ProcurementOrder) → filter selected os ≡ filter asked_for os
  filter-selected [] = refl
  filter-selected (o ∷ os) = rw (selected_lem o, filter-selected os) refl

  pages-Perm :
      (l m : ℕ) (s : Session) {os ps : List ProcurementOrder}
      → length (filter selected s.db.orders) ≤ l + m
      → (list_orders t status shop l 0 s).0 ≡ ok os
      → (list_orders t status shop m l s).0 ≡ ok ps
      → Perm (os ++ ps) (filter selected s.db.orders)
  unfolding list_orders
  pages-Perm l m s {os} {ps} enough h k =
      let mine = filter selected s.db.orders in
      let sorted = sort_by newest_first mine in
      let same : os ++ ps ≡ sorted =
        ground (arith, two_pages l m sorted, length-sort_by newest_first mine) in
      subst (λ xs. Perm xs mine) (sym same) (sort_by-perm newest_first mine)

  -- In one session, a first page and the page behind it that together have room for the
  -- tenant's orders of this status and shop are, one behind the other, just these orders,
  -- each as often as it is stored.
  pub list_orders-Perm :
      (l m : ℕ) (s : Session) {os ps : List ProcurementOrder}
      → length (filter asked_for s.db.orders) ≤ l + m
      → (list_orders t status shop l 0 s).0 ≡ ok os
      → (list_orders t status shop m l s).0 ≡ ok ps
      → Perm (os ++ ps) (filter asked_for s.db.orders)
  list_orders-Perm l m s {os} {ps} enough h k =
      let same = filter-selected s.db.orders in
      subst (Perm (os ++ ps)) same
        (pages-Perm l m s (subst (λ xs. length xs ≤ l + m) (sym same) enough) h k)
