-- ===== src/Collection/Jobs/Idempotency.antt =====
-- A job of backend/app/price_collection/service.py is made once for each idempotency key.
use price_checker.Base.{
  ℕ, Bool, true, false, ◌≡◌, ◌≢◌, refl, sym, subst, arith, List, [], ◌∷◌, ◌++◌, Text, text_eq_refl,
  any, filter, filter-append, Option, none, some,
}
use price_checker.Errors.{Result, ok, err}
use price_checker.Models.Procurement.{ProcurementOrder}
use price_checker.Models.Collection.{PriceCollectionJob}
use price_checker.Database.{
  Db, Session, Orm, ◌>>=◌, IsReadOnly, read_to, query, query_ok, query_one-IsReadOnly,
}
use price_checker.Collection.Jobs.{
  add_job, is_order, has_key, get_order, get_order_or_raise, get_job_by_idempotency, new_job,
  store_job, job_or_new, create_job,
}

get_order_or_raise-IsReadOnly : (t o : ℕ) → IsReadOnly (get_order_or_raise t o)
unfolding get_order_or_raise get_order ◌>>=◌
get_order_or_raise-IsReadOnly t o s = ground arith

by_key-IsReadOnly : (k : Text) → IsReadOnly (get_job_by_idempotency k)
unfolding get_job_by_idempotency
by_key-IsReadOnly k = query_one-IsReadOnly (λ d. d.jobs) (has_key k)

-- What the lookup by key has found.
by_key_some :
    (k : Text) (s : Session) (j : PriceCollectionJob)
    → (get_job_by_idempotency k s).0 ≡ ok (some j)
    → filter (has_key k) s.db.jobs ≡ j ∷ []
unfolding get_job_by_idempotency ◌>>=◌
by_key_some k s j h = ground arith

by_key_none :
    (k : Text) (s : Session)
    → (get_job_by_idempotency k s).0 ≡ ok none
    → filter (has_key k) s.db.jobs ≡ []
unfolding get_job_by_idempotency ◌>>=◌
by_key_none k s h = ground arith

-- How `create_job` ends: with the one job that has the key, stored before or new, and nothing
-- else changed; or with an exception, and nothing changed.
abbrev pub Ends : ℕ → ℕ → Text → Session → Result (PriceCollectionJob × Bool) → Session → Type 0
Ends t o k s (ok (j, true)) s' =
    (j.tenant_id ≡ t)
    × (j.order_id ≡ o)
    × (s' ≡ record s { db = add_job j s.db })
    × (filter (has_key k) s'.db.jobs ≡ j ∷ [])
Ends t o k s (ok (j, false)) s' = (filter (has_key k) s'.db.jobs ≡ j ∷ []) × (s' ≡ s)
Ends t o k s (err e) s' = s' ≡ s

no_key :
    (k : Text) (js : List PriceCollectionJob)
    → filter (has_key k) js ≡ []
    → any (has_key k) js ≡ false
no_key k [] e = refl
no_key k (j ∷ js) e = ground (arith, no_key k js)

module _ (orm : Orm) (t o : ℕ) (k : Text) where
  new_job_lem :
      (d : Db)
      → let j = new_job orm t o k d in
        (j.tenant_id ≡ t) × (j.order_id ≡ o) × (j.idempotency_key ≡ k)
  unfolding new_job
  new_job_lem d = (refl, refl, refl)

  appended :
      (j : PriceCollectionJob) (js : List PriceCollectionJob)
      → j.idempotency_key ≡ k
      → filter (has_key k) js ≡ []
      → filter (has_key k) (js ++ j ∷ []) ≡ j ∷ []
  appended j js e n =
      rw (filter-append (has_key k) js (j ∷ []), n, e) (ground (arith, text_eq_refl k))

  store-Ends :
      (j : PriceCollectionJob) (s : Session)
      → (j.tenant_id ≡ t) × (j.order_id ≡ o) × (j.idempotency_key ≡ k)
      → filter (has_key k) s.db.jobs ≡ []
      → Ends t o k s (store_job orm j s).0 (store_job orm j s).1
  unfolding store_job ◌>>=◌
  store-Ends j s (tenant, order, key) n =
      ground (arith, no_key k s.db.jobs n, appended j s.db.jobs key n)

  or_new-Ends :
      (found : Option PriceCollectionJob) (s : Session)
      → (get_job_by_idempotency k s).0 ≡ ok found
      → Ends t o k s (job_or_new orm t o k found s).0 (job_or_new orm t o k found s).1
  unfolding job_or_new
  or_new-Ends (some j) s e = (by_key_some k s j e, refl)
  or_new-Ends none s e =
      read_to (Ends t o k s) (query (new_job orm t o k)) _ s (λ _. refl) (λ _. refl)
        λ j e'.
          store-Ends j s (rw (query_ok (new_job orm t o k) s j e') (new_job_lem s.db))
            (by_key_none k s e)

  -- A call that returns gives the only job that then has the key: a stored one, of whatever
  -- tenant, with the session as it was, or a new one of this tenant and order, with nothing
  -- else changed. A call that raises leaves the session as it was.
  pub create_job-Ends :
      (s : Session) → let (result, s') = create_job orm t o k s in Ends t o k s result s'
  unfolding create_job
  create_job-Ends s =
      read_to (Ends t o k s) (get_order_or_raise t o) _ s (get_order_or_raise-IsReadOnly t o)
        (λ _. refl)
        λ _ _.
          read_to (Ends t o k s) (get_job_by_idempotency k) _ s (by_key-IsReadOnly k) (λ _. refl)
            (λ found e. or_new-Ends found s e)

  found_again :
      (order : ProcurementOrder) (j : PriceCollectionJob) (s : Session)
      → (get_order_or_raise t o s).0 ≡ ok order
      → filter (has_key k) s.db.jobs ≡ j ∷ []
      → create_job orm t o k s ≡ (ok (j, false), s)
  unfolding create_job get_order_or_raise get_order get_job_by_idempotency job_or_new ◌>>=◌
  found_again order j s h e = ground arith

  order_still :
      (order : ProcurementOrder) (j : PriceCollectionJob) (s : Session)
      → (get_order_or_raise t o s).0 ≡ ok order
      → (get_order_or_raise t o (record s { db = add_job j s.db })).0 ≡ ok order
  unfolding get_order_or_raise get_order ◌>>=◌
  order_still order j s h = ground arith

  -- What the same call does after a call that succeeded.
  abbrev pub Again : Result (PriceCollectionJob × Bool) → Session → Type 0
  Again (ok (j, b)) s' = create_job orm t o k s' ≡ (ok (j, false), s')
  Again (err e) s' = Unit

  Ends-Again :
      (order : ProcurementOrder) (s : Session) (r : Result (PriceCollectionJob × Bool))
      (s' : Session)
      → (get_order_or_raise t o s).0 ≡ ok order
      → Ends t o k s r s'
      → Again r s'
  Ends-Again order s (ok (j, true)) s' h (_, _, same, only) =
      subst (λ x. create_job orm t o k x ≡ (ok (j, false), x)) (sym same)
        (found_again order j (record s { db = add_job j s.db }) (order_still order j s h)
          (subst (λ (x : Session). filter (has_key k) x.db.jobs ≡ j ∷ []) same only))
  Ends-Again order s (ok (j, false)) s' h (only, same) =
      found_again order j s' (subst (λ x. (get_order_or_raise t o x).0 ≡ ok order) (sym same) h)
        only
  Ends-Again order s (err e) s' h x = tt

  -- After a call that returned a job, the same call returns the same job as one that is not
  -- new, and leaves the session as it was.
  pub create_job-Again :
      (s : Session) → let (result, s') = create_job orm t o k s in Again result s'
  unfolding create_job
  create_job-Again s =
      read_to Again (get_order_or_raise t o) _ s (get_order_or_raise-IsReadOnly t o) (λ _. tt)
        λ order h.
          read_to Again (get_job_by_idempotency k) _ s (by_key-IsReadOnly k) (λ _. tt)
            (λ found e. Ends-Again order s _ _ h (or_new-Ends found s e))

  order_found :
      (order : ProcurementOrder) (s : Session)
      → s.active ≡ true
      → filter (is_order t o) s.db.orders ≡ order ∷ []
      → (get_order_or_raise t o s).0 ≡ ok order
  unfolding get_order_or_raise get_order ◌>>=◌
  order_found order s a h = ground arith

  -- In a session that takes statements, where the tenant has the order and the only job that
  -- has the key belongs to another tenant, that job is what the call returns, and the session
  -- stays as it is: the lookup goes by the key alone.
  pub create_job_foreign :
      (s : Session) {order : ProcurementOrder} {j : PriceCollectionJob}
      → s.active ≡ true
      → filter (is_order t o) s.db.orders ≡ order ∷ []
      → filter (has_key k) s.db.jobs ≡ j ∷ []
      → j.tenant_id ≢ t
      → (job : PriceCollectionJob) × (create_job orm t o k s ≡ (ok (job, false), s))
        × (job.tenant_id ≢ t)
  create_job_foreign s {order} {j} a h only other =
      (j, found_again order j s (order_found order s a h) only, other)
