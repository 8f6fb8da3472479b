-- ===== src/Collection/Runs/Replacement.antt =====
-- What a run of a job in backend/app/price_collection/service.py leaves in the tables.
use price_checker.Base.{
  ℕ, ◌+◌, true, not, ◌==◌, ==_refl, ◌≡◌, refl, ap, ◌∙◌, List, [], ◌∷◌, ◌++◌, filter, any, none,
  Text, Unicode, update_where, update_where-map, map, if◌then◌else◌, false, Bool-cases, inl, inr,
}
use price_checker.Errors.{ok}
use price_checker.Floats.{Floats}
use price_checker.Models.Procurement.{ProcurementOrder, ProcurementResult, is_completed}
use price_checker.Models.Collection.{
  PriceCollectionJob, PriceCollectionAttempt, JobStatus, AttemptStatus,
}
use price_checker.Database.{Session, Orm, ◌>>=◌, pure, bind_ok, write_ok}
use price_checker.Collection.Jobs.{is_eligible, is_order, build_query, new_attempt}
use price_checker.Collection.Jobs.Lookup.{is_job, job_found, order_found, eligible_ok, attempt_ok}
use price_checker.Collection.Normalization.{NaverShoppingItem, CanonicalCollectedResult}
use price_checker.Collection.Runs.{
  Searched, found, running, finished, set_job, normalize_all, store, after_search, run_job,
  emit_best_result, is_canonical, drop_canonical,
}
use price_checker.Collection.Runs.Rows.{Rows, add_results-Rows, replace_ok}

-- The later of two changes of a job stands.
update_twice :
    (i : ℕ) (p q : PriceCollectionJob) (js : List PriceCollectionJob)
    → p.id ≡ i
    → update_where
        (λ (j : PriceCollectionJob). j.id == i)
        (λ _. q)
        (update_where (λ (j : PriceCollectionJob). j.id == i) (λ _. p) js)
      ≡ update_where (λ (j : PriceCollectionJob). j.id == i) (λ _. q) js
update_twice i p q [] e = refl
update_twice i p q (j ∷ js) e = elim (Bool-cases (j.id == i)) [
  | inl hit ↦ rw (hit, e, ==_refl i) (ap (λ l. q ∷ l) (update_twice i p q js e))
  | inr miss ↦ rw (miss, miss) (ap (λ l. j ∷ l) (update_twice i p q js e))
]

-- No notification for an order that is not completed.
quiet :
    (orm : Orm) (u : Unicode) (t : ℕ) (order : ProcurementOrder) (i : ℕ) (done : PriceCollectionJob)
    (s : Session)
    → is_completed order.status ≡ false
    → (emit_best_result orm u (is_completed order.status) t order i >>= λ _. pure done) s
      ≡ (ok done, s)
unfolding emit_best_result ◌>>=◌
quiet orm u t order i done s e = rw e refl

module _ {F : Type 0} (fl : Floats F) (orm : Orm) (u : Unicode)
    (retry_from attempted_at collected_at base : ℕ) where
  module _ (t version : ℕ) (search : Text → Searched) (s : Session) (job : PriceCollectionJob)
      (order : ProcurementOrder) (active : s.active ≡ true)
      (only_job : filter (is_job t job.id) s.db.jobs ≡ job ∷ [])
      (only_order : filter (is_order t job.order_id) s.db.orders ≡ order ∷ []) where
    started : Session
    started = record s { db = set_job (running job) s.db }

    searched :
        run_job fl orm u retry_from attempted_at collected_at base job.id t search version s
        ≡ after_search fl orm u retry_from attempted_at collected_at base t version order
            (running job)
            (search (build_query u order))
            started
    unfolding run_job started
    searched =
        bind_ok _ _ (job_found s active t job.id job only_job)
        ∙ bind_ok _ _ refl
        ∙ bind_ok _ _ (order_found s active t job.order_id order only_order)
        ∙ bind_ok _ _ (write_ok (set_job (running job)) s active)

    abbrev kept_rows : List ProcurementResult
    kept_rows = filter (λ r. not (is_canonical t order.id job.source r)) s.db.results

    -- What is left of the results, and what is stored behind them, up to the notification.
    abbrev Stored : List ProcurementResult → Type 0
    Stored rows =
        let done = finished (running job) (any (is_eligible job.id) (kept_rows ++ rows)) in
        let stored = record (set_job done s.db) { results = kept_rows ++ rows } in
        let attempt =
          new_attempt orm job.id t job.source AttemptStatus.success none none attempted_at stored in
        run_job fl orm u retry_from attempted_at collected_at base job.id t search version s
        ≡ (emit_best_result orm u (is_completed order.status) t order job.id >>= λ _. pure done)
            (record s { db = record stored { attempts = s.db.attempts ++ attempt ∷ [] } })

    run_until_notified :
        (items : List NaverShoppingItem) (ns : List CanonicalCollectedResult)
        → search (build_query u order) ≡ found items
        → normalize_all fl orm u order version items ≡ ok ns
        → (rows : List ProcurementResult) × Rows t order job.id ns rows × Stored rows
    unfolding after_search store started
    run_until_notified items ns e normalized =
        let kept = drop_canonical t order.id job.source started.db in
        let (rows, added, are) = add_results-Rows orm t order (running job) collected_at ns kept in
        let after = record kept { results = kept.results ++ rows } in
        let done = finished (running job) (any (is_eligible job.id) after.results) in
        (
          rows,
          are,
          searched
              ∙ rw e (
                  bind_ok _ _ (ap (λ r. (r, started)) normalized)
                  ∙ bind_ok _ _
                      (replace_ok orm t order (running job) collected_at ns started active)
                  ∙ rw added (
                      bind_ok _ _ (eligible_ok (record started { db = after }) active job.id)
                      ∙ bind_ok _ _ (write_ok (set_job done) (record started { db = after }) active)
                      ∙ bind_ok _ _ (
                          attempt_ok (record started { db = set_job done after }) active orm job.id
                            t job.source AttemptStatus.success none none attempted_at)
                      ∙ rw (update_twice job.id (running job) done s.db.jobs refl) refl)),
        )

    -- The job that a run returns, and the tables that it leaves.
    abbrev pub Stores : List ProcurementResult → Type 0
    Stores rows =
        let left = filter (λ r. not (is_canonical t order.id job.source r)) s.db.results ++ rows in
        let done = record job {
          status =
              if any (is_eligible job.id) left
              then JobStatus.succeeded
              else JobStatus.partial_failed;
          attempts = job.attempts + 1;
          last_error_code = none;
          last_error_message = none;
          next_retry_at = none;
        } in
        let attempt : PriceCollectionAttempt = record {
          id = orm.next_id (map (λ (a : PriceCollectionAttempt). a.id) s.db.attempts);
          tenant_id = t;
          job_id = job.id;
          source = job.source;
          status = AttemptStatus.success;
          error_code = none;
          error_message = none;
          attempted_at = attempted_at;
        } in
        run_job fl orm u retry_from attempted_at collected_at base job.id t search version s ≡ (
          ok done,
          record s {
            db = record s.db {
              jobs = map (λ (j : PriceCollectionJob). if j.id == job.id then done else j) s.db.jobs;
              results = left;
              attempts = s.db.attempts ++ attempt ∷ [];
            };
          },
        )

    -- In a session that takes statements, where the tenant has just one job of this id and
    -- just one order for it, which is not completed, the search returns items, and each of
    -- them is normalized: a row for each normalized result, in their order, stands behind
    -- the results that are not the order's from this source by the Naver API. The call
    -- returns the job, with one attempt more and no error, succeeded where one of the
    -- results that are stored then is a comparable one of the job and partially failed
    -- else; the other tables differ in the rows with the job's id, which are this job, and
    -- in one more attempt, a success.
    pub run_job-Stores :
        (items : List NaverShoppingItem) (ns : List CanonicalCollectedResult)
        → is_completed order.status ≡ false
        → search (build_query u order) ≡ found items
        → normalize_all fl orm u order version items ≡ ok ns
        → (rows : List ProcurementResult) × Rows t order job.id ns rows × Stores rows
    unfolding new_attempt
    run_job-Stores items ns unfinished e normalized =
        let (rows, are, ends) = run_until_notified items ns e normalized in
        let done = finished (running job) (any (is_eligible job.id) (kept_rows ++ rows)) in
        (
          rows,
          are,
          ends
              ∙ quiet orm u t order job.id _ _ unfinished
              ∙ rw
                  (update_where-map (λ (j : PriceCollectionJob). j.id == job.id) (λ _. done)
                    s.db.jobs)
                  refl,
        )
