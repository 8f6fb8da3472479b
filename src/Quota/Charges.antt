-- ===== src/Quota/Charges.antt =====
-- What backend/app/services/quota_service.py charges.
use price_checker.Base.{ℕ, ◌+◌, ◌≤◌, ◌<◌, ◌≡◌, refl, arith, ◌==◌, Bool-cases, inl, inr}
use price_checker.Errors.{Result, ok, err, quota_exceeded}
use price_checker.Quota.{
  Redis, Clock, tenant_quota_key, next_month_first_kst_epoch, count, check_and_consume,
  get_current_usage, remaining_quota,
}

module _ {Store : Type 0} (redis : Redis Store) (clock : Clock) where
  -- What a charge did: it went through within the quota, or is refused beyond it, and the amount
  -- is counted in both cases.
  abbrev pub Charges : ℕ → ℕ → ℕ → Store → Result ℕ → Store → Type 0
  Charges t quota n st (ok current) st' =
      (current ≡ get_current_usage redis clock t st + n)
      × (current ≤ quota)
      × (get_current_usage redis clock t st' ≡ current)
      × (remaining_quota redis clock t quota st ≡ remaining_quota redis clock t quota st' + n)
  Charges t quota n st (err e) st' =
      (quota < get_current_usage redis clock t st + n)
      × (get_current_usage redis clock t st' ≡ get_current_usage redis clock t st + n)
      × (e ≡ quota_exceeded)

  count_lem :
      (t n : ℕ) (st : Store)
      → ((count redis clock t n st).0 ≡ get_current_usage redis clock t st + n)
        × (get_current_usage redis clock t (count redis clock t n st).1
            ≡ get_current_usage redis clock t st + n)
  unfolding count get_current_usage
  count_lem t n st =
      let key = tenant_quota_key redis clock t in
      let (current, st') = redis.incrby key n st in
      (
        redis.incrby-answer key n st,
        elim (Bool-cases (current == n)) [
          | inl e ↦
              rw
                (
                  e,
                  redis.get-expireat key key (next_month_first_kst_epoch redis clock) st',
                  redis.get-incrby key n st,
                )
                refl
          | inr e ↦ rw (e, redis.get-incrby key n st) refl
        ],
      )

  -- An amount of 1 or more is added to the tenant's counter of the month whether the call
  -- returns or raises. It returns the new count where that is within the quota, and what
  -- remains of the quota is then less by the amount; beyond the quota it raises that the
  -- quota is exceeded.
  pub check_and_consume-Charges :
      (t quota n : ℕ) (st : Store)
      → 1 ≤ n
      → let (result, st') = check_and_consume redis clock t quota n st in
        Charges t quota n st result st'
  unfolding check_and_consume remaining_quota
  check_and_consume-Charges t quota n st pos = ground (arith, count_lem t n st)
