-- ===== src/Collection/Runs/Canonical.antt =====
-- The results of an order after a run in backend/app/price_collection/service.py: those of the
-- search in place of the earlier ones, and the others as they were.
use price_checker.Base.{
  ℕ, Bool, true, false, not, ◌≡◌, refl, sym, subst, ap, inl, inr, Bool-cases, ◌∙◌, arith, List, [],
  ◌∷◌, ◌++◌, ◌+◌, none, some, Option-cases, text_eq_sound, if◌then◌else◌, append-nil, filter,
  filter-append, filter-All, any, All, All-map, codes, Unicode, Text,
}
use price_checker.Errors.{Result, ok, and_then-eq-ok, ok_injective}
use price_checker.Floats.{Floats}
use price_checker.Models.Procurement.{
  ProcurementOrder, ProcurementResult, ResultSource, result_source_code, is_completed,
}
use price_checker.Models.Collection.{PriceCollectionJob, JobStatus}
use price_checker.Database.{Db, Session, Orm}
use price_checker.Collection.Jobs.{is_eligible, is_order, build_query}
use price_checker.Collection.Jobs.Lookup.{is_job}
use price_checker.Collection.Normalization.{
  NaverShoppingItem, CanonicalCollectedResult, normalize_naver_item,
}
use price_checker.Collection.Normalization.Comparable.{normalize-Judged}
use price_checker.Collection.Runs.{
  Searched, found, running, finished, normalize_all, run_job, is_canonical,
}
use price_checker.Collection.Runs.Rows.{Rows, all_canonical, any_eligible}
use price_checker.Collection.Runs.Replacement.{run_job-Stores}

abbrev FromNaver : CanonicalCollectedResult → Type 0
FromNaver n = (n.source ≡ ResultSource.naver) × (n.source_method ≡ codes "naver_openapi")

module _ {F : Type 0} (fl : Floats F) (orm : Orm) (u : Unicode) where
  normalized-FromNaver :
      (order : ProcurementOrder) (v : ℕ) (items : List NaverShoppingItem)
      (ns : List CanonicalCollectedResult)
      → normalize_all fl orm u order v items ≡ ok ns
      → All FromNaver ns
  unfolding normalize_all
  normalized-FromNaver order v [] ns e = subst (All FromNaver) (ok_injective e) tt
  normalized-FromNaver order v (item ∷ items) ns e =
      let (n, one, e₁) = and_then-eq-ok (normalize_naver_item fl u order item v) _ e in
      let (more, rest, e₂) = and_then-eq-ok (normalize_all fl orm u order v items) _ e₁ in
      let ((_, _, _, _, source, method, _, _), _) = normalize-Judged fl u order item v n one in
      subst (All FromNaver) (ok_injective e₂)
        ((source, method), normalized-FromNaver order v items more rest)

module _ {A : Type 0} (p : A → Bool) where
  dropped : (xs : List A) → filter p (filter (λ x. not (p x)) xs) ≡ []
  dropped [] = refl
  dropped (x ∷ xs) = ground (arith, dropped xs)

  kept_twice :
      (xs : List A)
      → filter (λ x. not (p x)) (filter (λ x. not (p x)) xs) ≡ filter (λ x. not (p x)) xs
  kept_twice [] = refl
  kept_twice (x ∷ xs) = ground (arith, kept_twice xs)

  none_left : (xs : List A) → filter p xs ≡ xs → filter (λ x. not (p x)) xs ≡ []
  none_left xs e = all_dropped xs (subst (All (λ x. p x ≡ true)) e (filter-All p xs))
    where
      all_dropped : (xs : List A) → All (λ x. p x ≡ true) xs → filter (λ x. not (p x)) xs ≡ []
      all_dropped [] h = refl
      all_dropped (x ∷ xs) h = rw h.0 (all_dropped xs h.1)

  no_other :
      (q : A → Bool) (xs : List A)
      → All (λ x. q x ≡ true → p x ≡ true) xs
      → any q (filter (λ x. not (p x)) xs) ≡ false
  no_other q [] h = refl
  no_other q (x ∷ xs) h = elim (Bool-cases (p x)) [
    | inl ours ↦ rw ours (no_other q xs h.1)
    | inr not_ours ↦
        (let not_this : q x ≡ false = elim (Bool-cases (q x)) [
          | inl t ↦ absurd (cc (h.0 t, not_ours))
          | inr f ↦ f
        ] in
          rw (not_ours, not_this) (no_other q xs h.1))
  ]

-- A test over two lists.
any-append :
    {A : Type 0} (p : A → Bool) (xs ys : List A) → any p xs ≡ false → any p (xs ++ ys) ≡ any p ys
any-append p [] ys h = refl
any-append p (x ∷ xs) ys h = ground (arith, any-append p xs ys)

-- The comparable rows of the job are among those that its runs replace.
abbrev pub OwnRows : ℕ → ProcurementOrder → PriceCollectionJob → Db → Type 0
OwnRows t order job d =
    All
      (λ (r : ProcurementResult).
        r.job_id ≡ some job.id
        → r.compare_eligible ≡ true
        → is_canonical t order.id job.source r ≡ true)
      d.results

-- A comparable row of the job, by its fields.
eligible_own :
    (i : ℕ) (r : ProcurementResult)
    → is_eligible i r ≡ true
    → (r.job_id ≡ some i) × (r.compare_eligible ≡ true)
eligible_own i r h = elim (Option-cases r.job_id) [
  | inl no_job ↦ ground arith
  | inr (j, e) ↦ ground arith
]

-- A row of the tenant and the order that the Naver API gave, by its fields.
abbrev pub IsFromSearch : ℕ → ProcurementOrder → PriceCollectionJob → ProcurementResult → Type 0
IsFromSearch t order job r =
    (r.tenant_id ≡ t)
    × (r.order_id ≡ order.id)
    × (r.source ≡ job.source)
    × (r.source_method ≡ some (codes "naver_openapi"))

source_code_injective : (p q : ResultSource) → result_source_code p ≡ result_source_code q → p ≡ q
source_code_injective p q h = ground arith

canonical-IsFromSearch :
    (t : ℕ) (order : ProcurementOrder) (job : PriceCollectionJob) (r : ProcurementResult)
    → is_canonical t order.id job.source r ≡ true
    → IsFromSearch t order job r
canonical-IsFromSearch t order job r h = elim (Option-cases r.source_method) [
  | inl no_method ↦ ground arith
  | inr (method, e) ↦ ground (
    arith,
    text_eq_sound method (codes "naver_openapi"),
    source_code_injective r.source job.source,
  )
]

module _ {F : Type 0} (fl : Floats F) (orm : Orm) (u : Unicode)
    (retry_from attempted_at collected_at base : ℕ) (t version : ℕ) where
  -- In a session that takes statements, where the tenant has just one job of this id, which
  -- is of Naver, and just one order for it, which is not completed, where the job's
  -- comparable results are the order's from Naver, and where the search returns items and
  -- each is normalized: the call returns the job with one attempt more and no error,
  -- succeeded where a normalized result is comparable and partially failed else; the order's
  -- results from the Naver API are then those of this search, one for each item in their
  -- order, and all other results are as they were. The results that are replaced are of this
  -- tenant, this order and this source, by the Naver API.
  pub run_job-Replaces :
      (search : Text → Searched) (s : Session) (job : PriceCollectionJob) (order : ProcurementOrder)
      (items : List NaverShoppingItem) (ns : List CanonicalCollectedResult)
      → s.active ≡ true
      → filter (is_job t job.id) s.db.jobs ≡ job ∷ []
      → filter (is_order t job.order_id) s.db.orders ≡ order ∷ []
      → is_completed order.status ≡ false
      → job.source ≡ ResultSource.naver
      → OwnRows t order job s.db
      → search (build_query u order) ≡ found items
      → normalize_all fl orm u order version items ≡ ok ns
      → let (result, s') =
          run_job fl orm u retry_from attempted_at collected_at base job.id t search version s in
        let ours = is_canonical t order.id job.source in
        (result
          ≡ ok (record job {
            status =
                if any (λ (n : CanonicalCollectedResult). n.compare_eligible) ns
                then JobStatus.succeeded
                else JobStatus.partial_failed;
            attempts = job.attempts + 1;
            last_error_code = none;
            last_error_message = none;
            next_retry_at = none;
          }))
        × Rows t order job.id ns (filter ours s'.db.results)
        × (filter (λ r. not (ours r)) s'.db.results ≡ filter (λ r. not (ours r)) s.db.results)
        × All (IsFromSearch t order job) (filter ours s.db.results)
  run_job-Replaces search s job order items ns active only_job only_order unfinished naver own
        searched normalized =
      let (rows, are, ends) =
        run_job-Stores fl orm u retry_from attempted_at collected_at base t version search s job
          order active only_job only_order items ns unfinished searched normalized in
      let ours = is_canonical t order.id job.source in
      let kept = filter (λ r. not (ours r)) s.db.results in
      let all_ours : filter ours rows ≡ rows =
        all_canonical orm t order job collected_at ns rows
          (All-map _ _ ns (λ n h. (h.0 ∙ sym naver, h.1))
            (normalized-FromNaver fl orm u order version items ns normalized))
          are in
      let status : any (is_eligible job.id) (kept ++ rows)
          ≡ any (λ (n : CanonicalCollectedResult). n.compare_eligible) ns =
        any-append (is_eligible job.id) kept rows (
          no_other ours (is_eligible job.id) s.db.results (
            All-map _ _ s.db.results
              (λ r own h. own (eligible_own job.id r h).0 (eligible_own job.id r h).1) own))
        ∙ any_eligible orm t order job collected_at ns rows are in
      let new_ours : filter ours (kept ++ rows) ≡ rows =
        rw (filter-append ours kept rows, dropped ours s.db.results) all_ours in
      let others : filter (λ r. not (ours r)) (kept ++ rows) ≡ kept =
        rw
          (
            filter-append (λ r. not (ours r)) kept rows,
            kept_twice ours s.db.results,
            none_left ours rows all_ours,
          )
          (append-nil kept) in
      subst
        (λ (x : Result PriceCollectionJob × Session).
          (x.0
            ≡ ok (
                finished (running job)
                  (any (λ (n : CanonicalCollectedResult). n.compare_eligible) ns)))
          × Rows t order job.id ns (filter ours x.1.db.results)
          × (filter (λ r. not (ours r)) x.1.db.results ≡ kept)
          × All (IsFromSearch t order job) (filter ours s.db.results))
        (sym ends)
        (
          ap (λ b. ok (finished (running job) b)) status,
          subst (Rows t order job.id ns) (sym new_ours) are,
          others,
          All-map _ _ (filter ours s.db.results) (canonical-IsFromSearch t order job)
              (filter-All ours s.db.results),
        )
