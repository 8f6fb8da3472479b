-- ===== src/Procurement/Orders.antt =====
-- The orders of backend/app/procurement/service.py.
pub mod Charges
pub mod Pages
use price_checker.Base.{
  ℕ, Bool, true, false, ◌&&◌, ◌||◌, Option, none, some, ◌∷◌, [], ◌++◌, List, map, Text, filter,
  take, drop, ◌==◌, ltb, leb, sort_by, is_some, if◌then◌else◌,
}
use price_checker.Errors.{Error, Result, ok, err, procurement_shop_not_found}
use price_checker.Models.Tenancy.{Shop}
use price_checker.Models.Procurement.{ProcurementOrder, OrderStatus, order_status_code}
use price_checker.Database.{
  Db, Session, Orm, Action, pure, raise, query, query_one, ◌>>=◌, ◌>>◌, write,
}
use price_checker.Quota.{Redis, Clock, check_and_consume}

pub record OrderCreate : Type 0 where
  pub shop_id : ℕ
  pub product_name : Text
  pub option_text : Option Text
  pub quantity : ℕ
  pub unit : Text
  pub target_unit_price : Option ℕ
  pub memo : Option Text
  pub status : OrderStatus

-- A shop of the tenant with this id.
abbrev pub is_shop : ℕ → ℕ → Shop → Bool
is_shop tenant_id shop_id s = s.id == shop_id && s.tenant_id == tenant_id

pub ensure_shop_belongs_to_tenant : ℕ → ℕ → Action (Unit {0})
ensure_shop_belongs_to_tenant tenant_id shop_id = do
  shop ← query_one (λ d. d.shops) (is_shop tenant_id shop_id)
  if is_some shop then pure tt else raise procurement_shop_not_found

abbrev pub add_order : ProcurementOrder → Db → Db
add_order o d = record d { orders = d.orders ++ o ∷ [] }

module _ (orm : Orm) where
  new_order : ℕ → OrderCreate → ℕ → Db → ProcurementOrder
  new_order tenant_id payload now d = record {
    id = orm.next_id (map (λ (o : ProcurementOrder). o.id) d.orders);
    tenant_id = tenant_id;
    shop_id = payload.shop_id;
    product_name = payload.product_name;
    option_text = payload.option_text;
    quantity = payload.quantity;
    unit = payload.unit;
    target_unit_price = payload.target_unit_price;
    memo = payload.memo;
    status = payload.status;
    created_at = now;
  }

  -- `create_order` behind the charge to the quota.
  insert_order : ℕ → OrderCreate → ℕ → Action ProcurementOrder
  insert_order tenant_id payload now = do
    ensure_shop_belongs_to_tenant tenant_id payload.shop_id
    order ← query (new_order tenant_id payload now)
    write (add_order order)
    pure order

-- An action behind a charge of 1 to the tenant's quota, which is raised where it is exceeded.
pub charged :
    {Store A : Type 0}
    → Redis Store
    → Clock
    → ℕ
    → ℕ
    → Action A
    → Store
    → Session
    → Result A × Store × Session
charged redis clock tenant_id monthly_quota action st s =
    let (charge, st') = check_and_consume redis clock tenant_id monthly_quota 1 st in
    elim charge [
      | ok current ↦ (let (result, s') = action s in (result, st', s'))
      | err e ↦ (err e, st', s)
    ]

pub create_order :
    {Store : Type 0}
    → Orm
    → Redis Store
    → Clock
    → ℕ
    → ℕ
    → OrderCreate
    → ℕ
    → Store
    → Session
    → Result ProcurementOrder × Store × Session
create_order orm redis clock tenant_id monthly_quota payload now =
    charged redis clock tenant_id monthly_quota (insert_order orm tenant_id payload now)

pub get_order : ℕ → ℕ → Action (Option ProcurementOrder)
get_order tenant_id order_id =
    query_one (λ d. d.orders)
      (λ (o : ProcurementOrder). o.id == order_id && o.tenant_id == tenant_id)

-- A filter that the request may leave out.
abbrev wanted : Option ℕ → ℕ → Bool
wanted none n = true
wanted (some m) n = n == m

abbrev status_wanted : Option OrderStatus → OrderStatus → Bool
status_wanted none x = true
status_wanted (some y) x = order_status_code x == order_status_code y

-- `ORDER BY created_at DESC, id DESC`
abbrev pub newest_first : ProcurementOrder → ProcurementOrder → Bool
newest_first o p = ltb p.created_at o.created_at || (o.created_at == p.created_at && leb p.id o.id)

unfoldable pub list_orders :
    ℕ → Option OrderStatus → Option ℕ → ℕ → ℕ → Action (List ProcurementOrder)
list_orders tenant_id status shop_id limit offset = query λ d. take limit (
    drop offset (
      sort_by newest_first (
        filter
          (λ (o : ProcurementOrder).
            o.tenant_id == tenant_id && status_wanted status o.status && wanted shop_id o.shop_id)
          d.orders)))
