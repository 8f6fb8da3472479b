-- ===== src/Models/Collection.antt =====
-- backend/app/price_collection/models.py.
use price_checker.Base.{ℕ, Option, Text}
use price_checker.Models.Procurement.{ResultSource}

pub data JobStatus : Type 0 where
  pending running succeeded partial_failed failed : JobStatus

pub data AttemptStatus : Type 0 where
  success retryable_failure permanent_failure : AttemptStatus

-- `source` is one of the sources of a result: the job writes its own into them.
pub record PriceCollectionJob : Type 0 where
  pub id : ℕ
  pub tenant_id : ℕ
  pub order_id : ℕ
  pub source : ResultSource
  pub status : JobStatus
  pub attempts : ℕ
  pub next_retry_at : Option ℕ
  pub idempotency_key : Text
  pub last_error_code : Option Text
  pub last_error_message : Option Text

pub record PriceCollectionAttempt : Type 0 where
  pub id : ℕ
  pub tenant_id : ℕ
  pub job_id : ℕ
  pub source : ResultSource
  pub status : AttemptStatus
  pub error_code : Option Text
  pub error_message : Option Text
  pub attempted_at : ℕ
