-- ===== src/Tenancy.antt =====
-- backend/app/tenancy/service.py: tenants, their shops and their users. The default quota is a
-- setting.
pub mod Names
use price_checker.Base.{
  ℕ, Bool, ◌&&◌, Option, none, some, ◌∷◌, [], ◌++◌, List, map, Text, text_eq, any, filter, take,
  drop, update_where, ◌==◌, leb, sort_by,
}
use price_checker.Errors.{tenant_not_found, shop_not_found, user_not_found, tenant_already_exists}
use price_checker.Models.Tenancy.{Tenant, Shop, User}
use price_checker.Database.{
  Db, Orm, Action, pure, raise, or_raise, query, query_one, ◌>>=◌, ◌>>◌, flush, write, roll_back,
  except_integrity,
}

pub record TenantCreate : Type 0 where
  pub name : Text
  pub plan : Text
  pub api_quota_monthly : Option ℕ

pub record ShopCreate : Type 0 where
  pub name : Text
  pub business_number : Option Text

pub get_tenant : ℕ → Action (Option Tenant)
get_tenant tenant_id = query_one (λ d. d.tenants) (λ (t : Tenant). t.id == tenant_id)

pub get_tenant_or_404 : ℕ → Action Tenant
get_tenant_or_404 tenant_id = do tenant ← get_tenant tenant_id; or_raise tenant tenant_not_found

abbrev pub is_named : Text → Tenant → Bool
is_named name t = text_eq t.name name

pub get_tenant_by_name : Text → Action (Option Tenant)
get_tenant_by_name name = query_one (λ d. d.tenants) (is_named name)

abbrev or_default : Option ℕ → ℕ → ℕ
or_default none default_quota = default_quota
or_default (some quota) default_quota = quota

abbrev pub add_tenant : Tenant → Db → Db
add_tenant t d = record d { tenants = d.tenants ++ t ∷ [] }

module _ (orm : Orm) where
  new_tenant : ℕ → TenantCreate → Db → Tenant
  new_tenant default_quota payload d = record {
    id = orm.next_id (map (λ (t : Tenant). t.id) d.tenants);
    name = payload.name;
    plan = payload.plan;
    api_quota_monthly = or_default payload.api_quota_monthly default_quota;
  }

  -- The flush, where the unique constraint on the name may be violated.
  store_tenant : Tenant → Action Tenant
  store_tenant tenant =
      except_integrity
        (flush orm (λ d. any (is_named tenant.name) d.tenants) (add_tenant tenant) >> pure tenant)
        (roll_back orm >> raise tenant_already_exists)

  pub create_tenant : ℕ → TenantCreate → Action Tenant
  create_tenant default_quota payload = do
    tenant ← query (new_tenant default_quota payload)
    store_tenant tenant

  new_shop : ℕ → ShopCreate → ℕ → Db → Shop
  new_shop tenant_id payload now d = record {
    id = orm.next_id (map (λ (s : Shop). s.id) d.shops);
    tenant_id = tenant_id;
    name = payload.name;
    business_number = payload.business_number;
    created_at = now;
  }

  pub create_shop : ℕ → ShopCreate → ℕ → Action Shop
  create_shop tenant_id payload now = do
    shop ← query (new_shop tenant_id payload now)
    write (λ d. record d { shops = d.shops ++ shop ∷ [] })
    pure shop

-- `ORDER BY created_at DESC`
pub list_shops : ℕ → ℕ → ℕ → Action (List Shop)
list_shops tenant_id limit offset = query λ d. take limit (
    drop offset (
      sort_by (λ (s r : Shop). leb r.created_at s.created_at)
        (filter (λ (s : Shop). s.tenant_id == tenant_id) d.shops)))

pub get_shop : ℕ → ℕ → Action (Option Shop)
get_shop tenant_id shop_id =
    query_one (λ d. d.shops) (λ (s : Shop). s.id == shop_id && s.tenant_id == tenant_id)

pub get_shop_or_404 : ℕ → ℕ → Action Shop
get_shop_or_404 tenant_id shop_id = do
  shop ← get_shop tenant_id shop_id
  or_raise shop shop_not_found

abbrev pub is_user : ℕ → User → Bool
is_user user_id u = u.id == user_id

pub get_user : ℕ → Action (Option User)
get_user user_id = query_one (λ d. d.users) (is_user user_id)

pub get_user_or_404 : ℕ → Action User
get_user_or_404 user_id = do user ← get_user user_id; or_raise user user_not_found

pub get_user_in_tenant : ℕ → ℕ → Action (Option User)
get_user_in_tenant tenant_id user_id =
    query_one (λ d. d.users) (λ (u : User). u.id == user_id && u.tenant_id == tenant_id)

pub get_user_by_provider : Text → Text → Action (Option User)
get_user_by_provider auth_provider provider_user_id =
    query_one (λ d. d.users)
      (λ (u : User).
        text_eq u.auth_provider auth_provider && text_eq u.provider_user_id provider_user_id)

pub list_users_in_tenant : ℕ → ℕ → ℕ → Action (List User)
list_users_in_tenant tenant_id limit offset = query λ d. take limit (
    drop offset (
      sort_by (λ (u v : User). leb v.created_at u.created_at)
        (filter (λ (u : User). u.tenant_id == tenant_id) d.users)))

pub touch_last_login : ℕ → ℕ → Action (Unit {0})
touch_last_login user_id now = do
  found ← get_user user_id
  user ← or_raise found user_not_found
  write (λ d. record d {
    users = update_where (is_user user.id) (λ u. record u { last_login_at = some now }) d.users;
  })
