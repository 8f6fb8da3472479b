-- ===== src/Collection/Runs/Rows.antt =====
-- The rows that a run of backend/app/price_collection/service.py stores.
use price_checker.Base.{
  ℕ, true, ◌||◌, ==_refl, ◌≡◌, refl, sym, ap, ◌∙◌, arith, List, [], ◌∷◌, ◌++◌, append_assoc,
  append-nil, filter, any, All, some, text_eq_refl, codes,
}
use price_checker.Errors.{ok}
use price_checker.Models.Procurement.{ProcurementOrder, ProcurementResult, result_source_code}
use price_checker.Models.Collection.{PriceCollectionJob}
use price_checker.Database.{Db, Session, Orm, ◌>>=◌}
use price_checker.Collection.Jobs.{is_eligible}
use price_checker.Collection.Normalization.{CanonicalCollectedResult}
use price_checker.Collection.Runs.{
  or_zero, is_canonical, drop_canonical, new_result, add_results, replace_canonical_results,
}

-- A row that stores a normalized result of the job with an id.
abbrev pub IsRow : ℕ → ProcurementOrder → ℕ → CanonicalCollectedResult → ProcurementResult → Type 0
IsRow t order job_id n r =
    (r.tenant_id ≡ t)
    × (r.order_id ≡ order.id)
    × (r.job_id ≡ some job_id)
    × (r.source ≡ n.source)
    × (r.source_method ≡ some n.source_method)
    × (r.product_url ≡ n.product_url)
    × (r.listed_price ≡ n.listed_price)
    × (r.per_unit_price ≡ or_zero n.per_unit_price)
    × (r.unit_count ≡ n.unit_count)
    × (r.compare_eligible ≡ n.compare_eligible)
    × ((r.seller_name ≡ n.seller_name)
        × (r.shipping_fee ≡ n.shipping_fee)
        × (r.external_offer_id ≡ n.external_offer_id)
        × (r.parser_version ≡ some n.parser_version))

-- A row for each normalized result, in their order.
abbrev pub Rows :
    ℕ → ProcurementOrder → ℕ → List CanonicalCollectedResult → List ProcurementResult → Type 0
Rows t order job_id [] [] = Unit
Rows t order job_id (n ∷ ns) (r ∷ rs) = IsRow t order job_id n r × Rows t order job_id ns rs
Rows t order job_id _ _ = ⊥

abbrev pub id_of : ProcurementResult → ℕ
id_of r = r.id

module _ (orm : Orm) (t : ℕ) (order : ProcurementOrder) (job : PriceCollectionJob) (time : ℕ) where
  pub add_results-Rows :
      (ns : List CanonicalCollectedResult) (d : Db)
      → (rows : List ProcurementResult) × (add_results orm t order job time ns d
          ≡ record d { results = d.results ++ rows })
        × Rows t order job.id ns rows
  unfolding add_results
  add_results-Rows [] d =
      ([], ap (λ rs. record d { results = rs }) (sym (append-nil d.results)), tt)
  add_results-Rows (n ∷ ns) d =
      let row = new_result orm t order job time n d in
      let (rows, same, are) = add_results-Rows ns (record d { results = d.results ++ row ∷ [] }) in
      (
        row ∷ rows,
        same ∙ ap (λ rs. record d { results = rs }) (append_assoc d.results (row ∷ []) rows),
        (
          unfold new_result in
              (
                refl,
                refl,
                refl,
                refl,
                refl,
                refl,
                refl,
                refl,
                refl,
                refl,
                (refl, refl, refl, refl),
              ),
          are,
        ),
      )

  -- What replacing does in a session that takes statements.
  pub replace_ok :
      (ns : List CanonicalCollectedResult) (s : Session)
      → s.active ≡ true
      → replace_canonical_results orm t order job time ns s ≡ (
        ok tt,
        record s {
          db = add_results orm t order job time ns (drop_canonical t order.id job.source s.db);
        },
      )
  unfolding replace_canonical_results ◌>>=◌
  replace_ok ns s a = ground arith

  -- The normalized results are of the job's source.
  abbrev pub IsOurs : CanonicalCollectedResult → Type 0
  IsOurs n = (n.source ≡ job.source) × (n.source_method ≡ codes "naver_openapi")

  row-Canonical :
      (n : CanonicalCollectedResult) (r : ProcurementResult)
      → IsOurs n
      → IsRow t order job.id n r
      → is_canonical t order.id job.source r ≡ true
  row-Canonical n r (source, method) (tenant, of, _, from, by, _, _, _, _, _, _) =
      rw
        (
          tenant,
          of,
          from,
          by,
          source,
          method,
          ==_refl t,
          ==_refl order.id,
          ==_refl (result_source_code job.source),
          text_eq_refl (codes "naver_openapi"),
        )
        refl

  pub all_canonical :
      (ns : List CanonicalCollectedResult) (rows : List ProcurementResult)
      → All IsOurs ns
      → Rows t order job.id ns rows
      → filter (is_canonical t order.id job.source) rows ≡ rows
  all_canonical [] [] h are = refl
  all_canonical [] (r ∷ rs) h are = absurd are
  all_canonical (n ∷ ns) [] h are = absurd are
  all_canonical (n ∷ ns) (r ∷ rs) h are =
      rw (row-Canonical n r h.0 are.0) (ap (λ l. r ∷ l) (all_canonical ns rs h.1 are.1))

  -- A job has a comparable row where it has a comparable result.
  pub any_eligible :
      (ns : List CanonicalCollectedResult) (rows : List ProcurementResult)
      → Rows t order job.id ns rows
      → any (is_eligible job.id) rows
        ≡ any (λ (n : CanonicalCollectedResult). n.compare_eligible) ns
  any_eligible [] [] are = refl
  any_eligible [] (r ∷ rs) are = absurd are
  any_eligible (n ∷ ns) [] are = absurd are
  any_eligible (n ∷ ns) (r ∷ rs) ((_, _, of, _, _, _, _, _, _, eligible, _), are) =
      rw (of, eligible, ==_refl job.id) (ap (λ b. n.compare_eligible || b) (any_eligible ns rs are))
