-- ===== src/Procurement/Orders/Charges.antt =====
-- What `create_order` of backend/app/procurement/service.py charges and stores.
use price_checker.Base.{ℕ, ◌+◌, ◌≤◌, ◌≡◌, refl, arith, List, [], ◌∷◌, filter}
use price_checker.Errors.{Result, ok, err}
use price_checker.Models.Tenancy.{Shop}
use price_checker.Models.Procurement.{ProcurementOrder}
use price_checker.Database.{
  Db, Session, Orm, ◌>>=◌, IsReadOnly, read_to, write_to, query, query_ok, query_one-IsReadOnly,
  pure,
}
use price_checker.Quota.{Redis, Clock, get_current_usage}
use price_checker.Quota.Charges
use price_checker.Procurement.Orders.{
  OrderCreate, is_shop, add_order, ensure_shop_belongs_to_tenant, new_order, insert_order, charged,
  create_order, get_order,
}

-- What is stored: one order of the tenant, for the one shop of the tenant that the request names; or
-- nothing.
abbrev pub Stores : ℕ → OrderCreate → Session → Result ProcurementOrder → Session → Type 0
Stores t p s (ok o) s' =
    (s' ≡ record s { db = add_order o s.db })
    × (o.tenant_id ≡ t)
    × (o.shop_id ≡ p.shop_id)
    × ((shop : Shop) × (filter (is_shop t p.shop_id) s.db.shops ≡ shop ∷ []))
Stores t p s (err e) s' = s' ≡ s

ensure-IsReadOnly : (t i : ℕ) → IsReadOnly (ensure_shop_belongs_to_tenant t i)
unfolding ensure_shop_belongs_to_tenant ◌>>=◌
ensure-IsReadOnly t i s = ground arith

pub get_order-IsReadOnly : (t i : ℕ) → IsReadOnly (get_order t i)
unfolding get_order
get_order-IsReadOnly t i = query_one-IsReadOnly (λ d. d.orders) _

only_shop :
    (t i : ℕ) (s : Session) (a : Unit {0}) (shops : List Shop)
    → filter (is_shop t i) s.db.shops ≡ shops
    → (ensure_shop_belongs_to_tenant t i s).0 ≡ ok a
    → (shop : Shop) × (filter (is_shop t i) s.db.shops ≡ shop ∷ [])
unfolding ensure_shop_belongs_to_tenant ◌>>=◌
only_shop t i s a [] e h = ground arith
only_shop t i s a (x ∷ []) e h = (x, e)
only_shop t i s a (x ∷ y ∷ xs) e h = ground arith

module _ (orm : Orm) (t : ℕ) (p : OrderCreate) (now : ℕ) where
  new_order_lem :
      (d : Db) (o : ProcurementOrder)
      → o ≡ new_order orm t p now d
      → (o.tenant_id ≡ t) × (o.shop_id ≡ p.shop_id)
  unfolding new_order
  new_order_lem d o e = rw e (refl, refl)

  insert-Stores :
      (s : Session) → Stores t p s (insert_order orm t p now s).0 (insert_order orm t p now s).1
  unfolding insert_order
  insert-Stores s =
      read_to (Stores t p s) (ensure_shop_belongs_to_tenant t p.shop_id) _ s
        (ensure-IsReadOnly t p.shop_id) (λ _. refl)
        λ a found.
          read_to (Stores t p s) (query (new_order orm t p now)) _ s (λ _. refl) (λ _. refl)
            λ o e.
              write_to (Stores t p s) (add_order o) (pure o) s (λ _. refl)
                λ _.
                  let (tenant, shop) =
                    new_order_lem s.db o (query_ok (new_order orm t p now) s o e) in
                  (refl, tenant, shop, only_shop t p.shop_id s a _ refl found)

  -- What is charged: one unit, and where the order is stored the count is within the quota.
  abbrev pub Pays :
      {Store : Type 0} → Redis Store → Clock → ℕ → Store → Result ProcurementOrder → Store → Type 0
  Pays redis clock quota st (ok o) st' =
      (get_current_usage redis clock t st' ≡ get_current_usage redis clock t st + 1)
      × (get_current_usage redis clock t st' ≤ quota)
  Pays redis clock quota st (err e) st' =
      get_current_usage redis clock t st' ≡ get_current_usage redis clock t st + 1

  module _ {Store : Type 0} (redis : Redis Store) (clock : Clock) (quota : ℕ) (st : Store) where
    stored-Pays :
        (current : ℕ) (st' : Store) (r : Result ProcurementOrder)
        → Charges.Charges redis clock t quota 1 st (ok current) st'
        → Pays redis clock quota st r st'
    stored-Pays current st' (ok o) c = ground (arith, c)
    stored-Pays current st' (err e) c = ground (arith, c)

    abbrev Outcome : Session → Result ProcurementOrder × Store × Session → Type 0
    Outcome s (r, st', s') = Pays redis clock quota st r st' × Stores t p s r s'

    settle :
        (s : Session) (charge : Result ℕ) (st' : Store)
        → Charges.Charges redis clock t quota 1 st charge st'
        → Outcome s (elim charge [
          | ok current ↦ (let (r, s') = insert_order orm t p now s in (r, st', s'))
          | err e ↦ (err e, st', s)
        ])
    settle s (ok current) st' c = (stored-Pays current st' _ c, insert-Stores s)
    settle s (err e) st' c = (c.1, refl)

    -- One unit is charged to the tenant's quota whether the order is stored or refused. An
    -- order is stored only within the quota, for the tenant that asks and a shop of this
    -- tenant, and nothing else of the tables changes; a refused one leaves the session as
    -- it was.
    pub create_order-Outcome :
        (s : Session)
        → let (r, st', s') = create_order orm redis clock t quota p now st s in
          Pays redis clock quota st r st' × Stores t p s r s'
    unfolding create_order charged
    create_order-Outcome s =
        settle s _ _ (Charges.check_and_consume-Charges redis clock t quota 1 st (omega arith))
