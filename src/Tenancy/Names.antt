-- ===== src/Tenancy/Names.antt =====
-- The names of tenants in backend/app/tenancy/service.py.
use price_checker.Base.{
  ℕ, true, false, ◌≡◌, refl, arith, List, [], ◌∷◌, ◌++◌, text_eq_refl, any, filter, some, inl, ◌⊎◌,
}
use price_checker.Errors.{Result, ok, err, tenant_already_exists}
use price_checker.Models.Tenancy.{Tenant}
use price_checker.Database.{Db, Session, Orm, ◌>>=◌, read_to, query, query_ok}
use price_checker.Tenancy.{
  TenantCreate, is_named, get_tenant_by_name, add_tenant, new_tenant, store_tenant, create_tenant,
}

-- How a creation ends: with a tenant whose name was free and by whose name it is then found, and
-- nothing else changed; or with an exception, and the session as it was; or, where the name was taken,
-- with the tables as the transaction found them and a session that takes statements.
abbrev pub Creates : TenantCreate → Session → Result Tenant → Session → Type 0
Creates p s (ok t) s' =
    (s' ≡ record s { db = add_tenant t s.db })
    × (any (is_named p.name) s.db.tenants ≡ false)
    × (get_tenant_by_name p.name s' ≡ (ok (some t), s'))
Creates p s (err e) s' =
    (s' ≡ s)
    ⊎ ((e ≡ tenant_already_exists)
        × (any (is_named p.name) s.db.tenants ≡ true)
        × (s'.db ≡ s.saved)
        × (s'.active ≡ true))

free_name :
    (p : TenantCreate) (t : Tenant) (ts : List Tenant)
    → t.name ≡ p.name
    → any (is_named p.name) ts ≡ false
    → filter (is_named p.name) (ts ++ t ∷ []) ≡ t ∷ []
free_name p t [] e h = rw e (ground (arith, text_eq_refl p.name))
free_name p t (x ∷ ts) e h = ground (arith, free_name p t ts e)

module _ (orm : Orm) (p : TenantCreate) where
  new_tenant-name : (quota : ℕ) (d : Db) → (new_tenant orm quota p d).name ≡ p.name
  unfolding new_tenant
  new_tenant-name quota d = refl

  found_by_name :
      (t : Tenant) (s : Session)
      → s.active ≡ true
      → filter (is_named p.name) s.db.tenants ≡ t ∷ []
      → get_tenant_by_name p.name s ≡ (ok (some t), s)
  unfolding get_tenant_by_name ◌>>=◌
  found_by_name t s a e = ground arith

  store-Creates :
      (t : Tenant) (s : Session)
      → t.name ≡ p.name
      → Creates p s (store_tenant orm t s).0 (store_tenant orm t s).1
  unfolding store_tenant ◌>>=◌
  store-Creates t s e = ground (
    arith,
    free_name p t s.db.tenants e,
    found_by_name t (record s { db = add_tenant t s.db }),
    orm.rollback-db (orm.failed_flush s),
    orm.failed_flush-saved s,
    orm.rollback-active (orm.failed_flush s),
  )

  -- A creation that returns gives a tenant of the name asked for, which was free before, adds
  -- it and changes nothing else, and the tenant is then found by its name. One that raises
  -- leaves the session as it was, or, where the name was taken, the tables as the transaction
  -- found them, in a session that takes statements.
  pub create_tenant-Creates :
      (quota : ℕ) (s : Session)
      → let (result, s') = create_tenant orm quota p s in Creates p s result s'
  unfolding create_tenant
  create_tenant-Creates quota s =
      read_to (Creates p s) (query (new_tenant orm quota p)) _ s (λ _. refl) (λ _. inl refl)
        λ t e.
          store-Creates t s
            (rw (query_ok (new_tenant orm quota p) s t e) (new_tenant-name quota s.db))
