-- ===== src/Quota.antt =====
-- backend/app/services/quota_service.py. Redis is a parameter. The quota is a natural number, as
-- the schema and the setting that it comes from see to (`ge=0`), so the guard against a negative one
-- never fires. The clock is read by the caller: `month` is the current year and month in Korea.
pub mod Charges
use price_checker.Base.{
  ℕ, ◌+◌, ◌-◌, ◌≡◌, ◌≢◌, Option, none, some, Text, codes, ◌++◌, ◌∷◌, str_int, ltb, ◌==◌,
  if◌then◌else◌,
}
use price_checker.Errors.{Error, Result, ok, err, quota_exceeded, amount_below_one}

-- The number that a key of Redis has: 0 for a key that is not there.
abbrev pub or_zero : Option ℕ → ℕ
or_zero none = 0
or_zero (some n) = n

-- What the code relies on of Redis. INCRBY adds to the number of the key, from 0 for a key that is
-- not there, and answers with the sum; EXPIREAT at a time to come changes no number now.
pub record Redis (Store : Type 0) : Type 0 where
  pub get : Text → Store → Option ℕ
  pub incrby : Text → ℕ → Store → ℕ × Store
  pub expireat : Text → ℕ → Store → Store
  pub incrby-answer : (k : Text) (n : ℕ) (st : Store) → (incrby k n st).0 ≡ or_zero (get k st) + n
  pub get-incrby :
      (k : Text) (n : ℕ) (st : Store) → get k (incrby k n st).1 ≡ some (or_zero (get k st) + n)
  pub get-incrby-other :
      (k k' : Text) (n : ℕ) (st : Store) → k' ≢ k → get k' (incrby k n st).1 ≡ get k' st
  pub get-expireat : (k k' : Text) (at : ℕ) (st : Store) → get k' (expireat k at st) ≡ get k' st

pub record Month : Type 0 where
  pub year : ℕ
  pub month : ℕ

-- The year and month after, as `_next_month_first_kst_epoch` finds it.
abbrev pub next_month : Month → Month
next_month m =
    if m.month == 12
    then record { year = m.year + 1; month = 1 }
    else record { year = m.year; month = m.month + 1 }

-- The clock and the calendar of the library: the text of the current month, `YYYYMM`, and the
-- timestamp of a month's first midnight in Korea.
pub record Clock : Type 0 where
  pub now : Month
  pub year_month : Text
  pub first_midnight : Month → ℕ

module _ {Store : Type 0} (redis : Redis Store) (clock : Clock) where
  abbrev pub tenant_quota_key : ℕ → Text
  tenant_quota_key tenant_id =
      codes "quota:tenant:" ++ (str_int tenant_id ++ (codes ":" ++ clock.year_month))

  abbrev pub next_month_first_kst_epoch : ℕ
  next_month_first_kst_epoch = clock.first_midnight (next_month clock.now)

  -- The new counter, which expires with the month where it has just been made.
  unfoldable pub count : ℕ → ℕ → Store → ℕ × Store
  count tenant_id amount st =
      let (current, st') = redis.incrby (tenant_quota_key tenant_id) amount st in
      (
        current,
        if current == amount
            then redis.expireat (tenant_quota_key tenant_id) next_month_first_kst_epoch st'
            else st',
      )

  unfoldable pub check_and_consume : ℕ → ℕ → ℕ → Store → Result ℕ × Store
  check_and_consume tenant_id monthly_quota amount st =
      if ltb amount 1
      then (err amount_below_one, st)
      else (let (current, st') = count tenant_id amount st in
          (if ltb monthly_quota current then err quota_exceeded else ok current, st'))

  pub get_current_usage : ℕ → Store → ℕ
  get_current_usage tenant_id st = or_zero (redis.get (tenant_quota_key tenant_id) st)

  -- `max(monthly_quota - current, 0)`, which is how numbers are subtracted here.
  pub remaining_quota : ℕ → ℕ → Store → ℕ
  unfolding get_current_usage
  remaining_quota tenant_id monthly_quota st = monthly_quota - get_current_usage tenant_id st
