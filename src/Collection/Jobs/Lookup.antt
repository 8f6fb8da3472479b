-- ===== src/Collection/Jobs/Lookup.antt =====
-- The queries and the flush of backend/app/price_collection/service.py, in a session that takes
-- statements.
use price_checker.Base.{
  ℕ, true, Bool, ◌==◌, ◌&&◌, ◌≡◌, arith, [], ◌∷◌, ◌++◌, filter, any, some, Option, Text,
}
use price_checker.Errors.{ok}
use price_checker.Models.Procurement.{ProcurementOrder, ResultSource}
use price_checker.Models.Collection.{PriceCollectionJob, AttemptStatus}
use price_checker.Database.{Session, Orm, ◌>>=◌}
use price_checker.Collection.Jobs.{
  is_order, is_eligible, get_job, get_order, get_order_or_raise, new_attempt, record_attempt,
  has_eligible_results,
}

abbrev pub is_job : ℕ → ℕ → PriceCollectionJob → Bool
is_job t i j = j.tenant_id == t && j.id == i

module _ (s : Session) (active : s.active ≡ true) where
  pub job_found :
      (t i : ℕ) (job : PriceCollectionJob)
      → filter (is_job t i) s.db.jobs ≡ job ∷ []
      → get_job t i s ≡ (ok (some job), s)
  unfolding get_job ◌>>=◌
  job_found t i job only = ground arith

  pub order_found :
      (t o : ℕ) (order : ProcurementOrder)
      → filter (is_order t o) s.db.orders ≡ order ∷ []
      → get_order_or_raise t o s ≡ (ok order, s)
  unfolding get_order_or_raise get_order ◌>>=◌
  order_found t o order only = ground arith

  pub eligible_ok : (i : ℕ) → has_eligible_results i s ≡ (ok (any (is_eligible i) s.db.results), s)
  unfolding has_eligible_results
  eligible_ok i = ground arith

  pub attempt_ok :
      (orm : Orm) (i t : ℕ) (source : ResultSource) (status : AttemptStatus)
      (code message : Option Text) (now : ℕ)
      → let attempt = new_attempt orm i t source status code message now s.db in
        record_attempt orm i t source status code message now s
        ≡ (ok attempt, record s { db = record s.db { attempts = s.db.attempts ++ attempt ∷ [] } })
  unfolding record_attempt ◌>>=◌
  attempt_ok orm i t source status code message now = ground arith
