-- ===== src/Tests/Runs.antt =====
-- Each theorem on option texts, unit prices and runs of a job at a concrete item, order and job.
use price_checker.Base.{
  ℕ, ◌≡◌, refl, arith, [], ◌∷◌, ◌++◌, List, none, some, pos, Text, codes, str_int, All, ascii,
  filter, not, map,
}
use price_checker.Errors.{ok}
use price_checker.Models.Procurement.{
  ProcurementOrder, ProcurementResult, OrderStatus, ResultSource,
}
use price_checker.Models.Collection.{
  PriceCollectionJob, PriceCollectionAttempt, JobStatus, AttemptStatus,
}
use price_checker.Database.{Session}
use price_checker.Parsers.Units.{UnitCode}
use price_checker.Parsers.Options.{ParseResult, parse_option_text}
use price_checker.Parsers.Options.Hangul.{hangul_units, count_of, ReadsCount, parse-hangul_units}
use price_checker.Collection.Normalization.{
  NaverShoppingItem, CanonicalCollectedResult, normalize_naver_item, normalize_parsed, quantize,
  accepted, rejected,
}
use price_checker.Collection.Normalization.Comparable.{Keeps, Judged, normalize-Judged}
use price_checker.Collection.Normalization.Pieces.{normalize-hangul_units}
use price_checker.Collection.Runs.{Searched, found, normalize_all, run_job, is_canonical}
use price_checker.Collection.Runs.Rows.{Rows}
use price_checker.Collection.Runs.Replacement.{Stores, run_job-Stores}
use price_checker.Collection.Runs.Canonical.{run_job-Replaces}
use price_checker.Collection.Runs.Savings.{run_job-saving_of}
use price_checker.Procurement.Savings.{saving_of}
use price_checker.Tests.Fixtures.{orm, session, tables}
use price_checker.Tests.Doubles.{whole}

abbrev order : ProcurementOrder
order = record {
  id = 3;
  tenant_id = 1;
  shop_id = 1;
  product_name = codes "soap";
  option_text = none;
  quantity = 2;
  unit = codes "개";
  target_unit_price = some 900;
  memo = none;
  status = OrderStatus.collecting;
  created_at = 5;
}

abbrev job : PriceCollectionJob
job = record {
  id = 4;
  tenant_id = 1;
  order_id = 3;
  source = ResultSource.naver;
  status = JobStatus.pending;
  attempts = 0;
  next_retry_at = none;
  idempotency_key = codes "k";
  last_error_code = none;
  last_error_message = none;
}

-- Three pieces for 1000.
abbrev item : NaverShoppingItem
item = record {
  title = str_int 3 ++ codes "개";
  product_url = codes "http://a";
  listed_price = pos 1000;
  mall_name = some (codes "mall");
  product_id = some (codes "7");
  product_type = none;
  maker = none;
  brand = none;
  category1 = none;
  category2 = none;
  category3 = none;
  category4 = none;
}

-- The same for nothing.
abbrev gift : NaverShoppingItem
gift = record item { listed_price = pos 0 }

abbrev open_session : Session
open_session = record session {
  db = record tables { orders = order ∷ []; jobs = job ∷ []; results = [] };
}

abbrev pieces : ParseResult ℕ
pieces = count_of ascii whole 3 (codes "개", UnitCode.ct)

parse-hangul_units_example : All (ReadsCount ascii whole 3) hangul_units
parse-hangul_units_example = parse-hangul_units ascii whole 3 (omega arith)

title_read : parse_option_text whole ascii item.title ≡ ok (some pieces)
title_read = (parse-hangul_units ascii whole 3 (omega arith)).0

abbrev bought : CanonicalCollectedResult
bought = accepted item (pos 100000) 1 3 33333

item_normalized : normalize_naver_item whole ascii order item 1 ≡ ok bought
item_normalized =
    (normalize-hangul_units whole ascii order 1 refl item 3 1000 (omega arith) (omega arith)
      (omega arith) (omega arith)).0

normalize-Judged_example :
    Keeps whole ascii order item 1 bought × Judged whole ascii order item 1 bought
normalize-Judged_example = normalize-Judged whole ascii order item 1 bought item_normalized

normalize-hangul_units_example :
    All
      (λ (x : Text × UnitCode).
        normalize_naver_item whole ascii order
          (record item { title = str_int 3 ++ x.0; listed_price = pos 1000 })
          1
        ≡ ok (accepted item (pos 100000) 1 3 33333))
      hangul_units
normalize-hangul_units_example =
    normalize-hangul_units whole ascii order 1 refl item 3 1000 (omega arith) (omega arith)
      (omega arith) (omega arith)

abbrev later : PriceCollectionJob
later = record job {
  attempts = 1;
  last_error_code = some (codes "429");
  last_error_message = some (codes "429");
  next_retry_at = some 70;
}

abbrev attempt : PriceCollectionAttempt
attempt = record {
  id = orm.next_id (map (λ (a : PriceCollectionAttempt). a.id) open_session.db.attempts);
  tenant_id = 1;
  job_id = 4;
  source = ResultSource.naver;
  status = AttemptStatus.retryable_failure;
  error_code = some (codes "429");
  error_message = some (codes "429");
  attempted_at = 11;
}

abbrev one_item : Text → Searched
one_item _ = found (item ∷ [])

all_normalized : normalize_all whole orm ascii order 1 (item ∷ []) ≡ ok (bought ∷ [])
unfolding normalize_all
all_normalized = rw item_normalized refl

run_job-Stores_example :
    (rows : List ProcurementResult) × Rows 1 order 4 (bought ∷ []) rows
    × Stores whole orm ascii 10 11 12 60 1 1 one_item open_session job order refl refl refl rows
run_job-Stores_example =
    run_job-Stores whole orm ascii 10 11 12 60 1 1 one_item open_session job order refl refl refl
      (item ∷ []) (bought ∷ []) refl refl all_normalized

run_job-Replaces_example :
    let (result, s) = run_job whole orm ascii 10 11 12 60 4 1 one_item 1 open_session in
    let ours = is_canonical 1 3 ResultSource.naver in
    (result ≡ ok (record job { status = JobStatus.succeeded; attempts = 1 }))
    × Rows 1 order 4 (bought ∷ []) (filter ours s.db.results)
    × (filter (λ r. not (ours r)) s.db.results ≡ [])
    × Unit {0}
run_job-Replaces_example =
    run_job-Replaces whole orm ascii 10 11 12 60 1 1 one_item open_session job order (item ∷ [])
      (bought ∷ []) refl refl refl refl refl tt refl all_normalized

abbrev a_gift : Text → Searched
a_gift _ = found (gift ∷ [])

abbrev given : CanonicalCollectedResult
given = rejected gift (pos 0) 1 (codes "zero_price")

gift_normalized : normalize_all whole orm ascii order 1 (gift ∷ []) ≡ ok (given ∷ [])
unfolding normalize_all normalize_naver_item quantize normalize_parsed
gift_normalized = rw title_read refl

run_job-saving_of_example :
    saving_of 1 (run_job whole orm ascii 10 11 12 60 4 1 a_gift 1 open_session).1.db order ≡ 1800
run_job-saving_of_example =
    run_job-saving_of whole orm ascii 10 11 12 60 1 1 a_gift open_session job order (gift ∷ [])
      (given ∷ []) 900 refl refl refl refl refl tt refl gift_normalized refl refl
