-- ===== src/Collection/Jobs.antt =====
-- backend/app/price_collection/service.py but for `run_job`: the jobs and their attempts. The
-- payload of a job is its idempotency key.
pub mod Idempotency
pub mod Lookup
use price_checker.Base.{
  ℕ, Bool, true, false, not, ◌&&◌, Option, none, some, ◌∷◌, [], ◌++◌, List, map, Text, codes,
  text_eq, any, filter, ◌==◌, leb, sort_by, Unicode, strip,
}
use price_checker.Errors.{Error, Result, ok, err, collection_order_not_found, integrity_error}
use price_checker.Models.Procurement.{
  ProcurementOrder, ProcurementResult, ResultSource, result_source_code,
}
use price_checker.Models.Collection.{
  PriceCollectionJob, PriceCollectionAttempt, JobStatus, AttemptStatus,
}
use price_checker.Database.{
  Db, Session, Orm, Action, pure, or_raise, query, query_one, ◌>>=◌, ◌>>◌, flush, write, roll_back,
  except_integrity,
}

abbrev pub add_job : PriceCollectionJob → Db → Db
add_job j d = record d { jobs = d.jobs ++ j ∷ [] }

abbrev pub has_key : Text → PriceCollectionJob → Bool
has_key key j = text_eq j.idempotency_key key

abbrev pub is_order : ℕ → ℕ → ProcurementOrder → Bool
is_order tenant_id order_id o = o.tenant_id == tenant_id && o.id == order_id

pub get_order : ℕ → ℕ → Action (Option ProcurementOrder)
get_order tenant_id order_id = query_one (λ d. d.orders) (is_order tenant_id order_id)

-- `_get_order`, and the exception where there is none.
pub get_order_or_raise : ℕ → ℕ → Action ProcurementOrder
get_order_or_raise tenant_id order_id = do
  order ← get_order tenant_id order_id
  or_raise order collection_order_not_found

-- `_get_job_by_idempotency`, which goes by the key alone.
pub get_job_by_idempotency : Text → Action (Option PriceCollectionJob)
get_job_by_idempotency key = query_one (λ d. d.jobs) (has_key key)

pub get_job : ℕ → ℕ → Action (Option PriceCollectionJob)
get_job tenant_id job_id =
    query_one (λ d. d.jobs) (λ (j : PriceCollectionJob). j.tenant_id == tenant_id && j.id == job_id)

module _ (orm : Orm) where
  new_job : ℕ → ℕ → Text → Db → PriceCollectionJob
  new_job tenant_id order_id key d = record {
    id = orm.next_id (map (λ (j : PriceCollectionJob). j.id) d.jobs);
    tenant_id = tenant_id;
    order_id = order_id;
    source = ResultSource.naver;
    status = JobStatus.pending;
    attempts = 0;
    next_retry_at = none;
    idempotency_key = key;
    last_error_code = none;
    last_error_message = none;
  }

  -- The job is stored; or the constraint on its key is violated, and behind the rollback the
  -- stored job with the key is looked up.
  store_job : PriceCollectionJob → Action (PriceCollectionJob × Bool)
  store_job job =
      except_integrity
        (flush orm (λ d. any (has_key job.idempotency_key) d.jobs) (add_job job)
          >> pure (job, true))
        (do
          roll_back orm
          recovered ← get_job_by_idempotency job.idempotency_key
          or_raise recovered integrity_error >>= λ j. pure (j, false))

  job_or_new : ℕ → ℕ → Text → Option PriceCollectionJob → Action (PriceCollectionJob × Bool)
  job_or_new tenant_id order_id key (some existing) = pure (existing, false)
  job_or_new tenant_id order_id key none = do
    job ← query (new_job tenant_id order_id key)
    store_job job

  -- The job, and whether it is new.
  pub create_job : ℕ → ℕ → Text → Action (PriceCollectionJob × Bool)
  create_job tenant_id order_id key = do
    get_order_or_raise tenant_id order_id
    existing ← get_job_by_idempotency key
    job_or_new tenant_id order_id key existing

  unfoldable pub new_attempt :
      ℕ
      → ℕ
      → ResultSource
      → AttemptStatus
      → Option Text
      → Option Text
      → ℕ
      → Db
      → PriceCollectionAttempt
  new_attempt job_id tenant_id source status error_code error_message now d = record {
    id = orm.next_id (map (λ (a : PriceCollectionAttempt). a.id) d.attempts);
    tenant_id = tenant_id;
    job_id = job_id;
    source = source;
    status = status;
    error_code = error_code;
    error_message = error_message;
    attempted_at = now;
  }

  pub record_attempt :
      ℕ
      → ℕ
      → ResultSource
      → AttemptStatus
      → Option Text
      → Option Text
      → ℕ
      → Action PriceCollectionAttempt
  record_attempt job_id tenant_id source status error_code error_message now = do
    attempt ← query (new_attempt job_id tenant_id source status error_code error_message now)
    write (λ d. record d { attempts = d.attempts ++ attempt ∷ [] })
    pure attempt

-- Newest first: `ORDER BY id DESC`.
pub list_jobs : ℕ → ℕ → Action (List PriceCollectionJob)
list_jobs tenant_id order_id = do
  get_order_or_raise tenant_id order_id
  query λ d.
      sort_by (λ (i j : PriceCollectionJob). leb j.id i.id)
        (filter (λ (j : PriceCollectionJob). j.tenant_id == tenant_id && j.order_id == order_id)
          d.jobs)

abbrev pub is_of : Option ℕ → ℕ → Bool
is_of none i = false
is_of (some j) i = j == i

abbrev pub is_eligible : ℕ → ProcurementResult → Bool
is_eligible job_id r = is_of r.job_id job_id && r.compare_eligible

-- `_has_eligible_results`
pub has_eligible_results : ℕ → Action Bool
has_eligible_results job_id = query (λ d. any (is_eligible job_id) d.results)

-- `_build_query`
abbrev option_suffix : Option Text → Text
option_suffix none = []
option_suffix (some []) = []
option_suffix (some (c ∷ s)) = b' ' ∷ c ∷ s

pub build_query : Unicode → ProcurementOrder → Text
build_query u order = strip u (order.product_name ++ option_suffix order.option_text)
