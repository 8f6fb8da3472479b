-- ===== src/Search/Query/Matches.antt =====
-- Which rows the query of backend/app/services/search_service.py finds.
use price_checker.Base.{
  ltb, leb, ◌==◌, ◌&&◌, ◌||◌, ℕ, ◌≤◌, Bool, true, false, ◌&&◌, ◌||◌, ◌==◌, ==_iff, ◌≡◌, refl, sym,
  ◌∙◌, arith, List, [], ◌∷◌, Text, concat_map, map, filter, take, length, sort_by, sort_by-perm,
  sort_by-All, sort_by-IsSorted, IsSorted, All, All-map, All-append, page-All, length-take-le,
  if◌then◌else◌, Option, none, some, inl, inr, ◌⊎◌, Bool-cases, Unicode, strip,
}
use mathlib.Core.List.{Perm}
use price_checker.Errors.{Result, ok, err, pending_rollback}
use price_checker.Models.Procurement.{ProcurementOrder, ProcurementResult}
use price_checker.Database.{Db, Session}
use price_checker.Search.Like.{ilike, contains}
use price_checker.Search.Query.{
  needle, Row, joined, option_ilike, is_match, best_first, load_matches,
}
use price_checker.Search.Query.Needle.{ilike-needle}

joined-All : (d : Db) → All (λ (x : Row). x.1.id ≡ x.0.order_id) (joined d)
joined-All d = results d.results
  where
    orders :
        (r : ProcurementResult) (os : List ProcurementOrder)
        → All
            (λ (x : Row). x.1.id ≡ x.0.order_id)
            (map
              (λ (o : ProcurementOrder). (r, o))
              (filter (λ (o : ProcurementOrder). o.id == r.order_id) os))
    orders r [] = tt
    orders r (o ∷ os) = elim (Bool-cases (o.id == r.order_id)) [
      | inl same ↦ rw same ((==_iff o.id r.order_id).0 same, orders r os)
      | inr other ↦ rw other (orders r os)
    ]

    results :
        (rs : List ProcurementResult)
        → All
            (λ (x : Row). x.1.id ≡ x.0.order_id)
            (concat_map
              (λ (r : ProcurementResult).
                map
                  (λ (o : ProcurementOrder). (r, o))
                  (filter (λ (o : ProcurementOrder). o.id == r.order_id) d.orders))
              rs)
    results [] = tt
    results (r ∷ rs) = All-append _ _ _ (orders r d.orders) (results rs)

module _ {A : Type 0} where
  filter_both :
      (P : A → Type 0) (p : A → Bool) (xs : List A)
      → All P xs
      → All (λ x. P x × (p x ≡ true)) (filter p xs)
  filter_both P p [] h = tt
  filter_both P p (x ∷ xs) h = elim (Bool-cases (p x)) [
    | inl t ↦ rw t ((h.0, t), filter_both P p xs h.1)
    | inr f ↦ rw f (filter_both P p xs h.1)
  ]

both : (a b : Bool) → (a && b) ≡ true → (a ≡ true) × (b ≡ true)
both a b h = ground arith

best_first_total : (x y : Row) → best_first x y ≡ false → best_first y x ≡ true
best_first_total x y h = ground arith

best_first_trans :
    (x y z : Row) → best_first x y ≡ true → best_first y z ≡ true → best_first x z ≡ true
best_first_trans x y z h k = ground arith

module _ (same : ℕ → ℕ → Bool) (u : Unicode) (t : ℕ) (text : Text) where
  -- The query stands in the name or in the option of the order.
  abbrev pub Mentions : ProcurementOrder → Type 0
  Mentions o =
      (contains same (strip u text) o.product_name ≡ true)
      ⊎ ((option : Text) × (o.option_text ≡ some option)
          × (contains same (strip u text) option ≡ true))

  abbrev pub IsHit : Row → Type 0
  IsHit (r, o) =
      (o.id ≡ r.order_id)
      × (r.tenant_id ≡ t)
      × (o.tenant_id ≡ t)
      × (r.compare_eligible ≡ true)
      × Mentions o

  mentions :
      (o : ProcurementOrder)
      → (ilike same (needle u text) o.product_name
          || option_ilike same (needle u text) o.option_text)
        ≡ true
      → Mentions o
  mentions o h = elim (Bool-cases (ilike same (needle u text) o.product_name)) [
    | inl named ↦ inl (sym (ilike-needle same u text o.product_name) ∙ named)
    | inr unnamed ↦ inr (in_option o.option_text (rw unnamed at h))
  ]
    where
      in_option :
          (option : Option Text)
          → option_ilike same (needle u text) option ≡ true
          → (s : Text) × (option ≡ some s) × (contains same (strip u text) s ≡ true)
      in_option none h = absurd (cc h)
      in_option (some s) h = (s, refl, sym (ilike-needle same u text s) ∙ h)

  hit : (x : Row) → (x.1.id ≡ x.0.order_id) × (is_match same t (needle u text) x ≡ true) → IsHit x
  hit (r, o) (of, h) =
      let (mine, h₁) = both (r.tenant_id == t) _ h in
      let (ours, h₂) = both (o.tenant_id == t) _ h₁ in
      let (eligible, h₃) = both r.compare_eligible _ h₂ in
      (of, (==_iff r.tenant_id t).0 mine, (==_iff o.tenant_id t).0 ours, eligible, mentions o h₃)

  -- The best hits, in their order and no more than the limit.
  abbrev pub BestHits : ℕ → Session → Result (List Row) → Session → Type 0
  BestHits limit s (ok rows) s' =
      (s' ≡ s)
      × All IsHit rows
      × (length rows ≤ limit)
      × ((hits : List Row) × Perm hits (filter (is_match same t (needle u text)) (joined s.db))
          × IsSorted
              (λ (x y : Row).
                ltb x.0.per_unit_price y.0.per_unit_price
                || (x.0.per_unit_price == y.0.per_unit_price
                    && (ltb y.0.collected_at x.0.collected_at
                        || (x.0.collected_at == y.0.collected_at && leb x.0.id y.0.id))))
              hits
          × (rows ≡ take limit hits))
  BestHits limit s (err e) s' = s' ≡ s

  -- The rows that the query returns are results with their own orders, both of the tenant
  -- that asks, comparable, and with the query in the order's product name or option; they are
  -- the first ones, up to the limit, of all such rows, sorted by price, then the latest, then
  -- the id. The session stays as it is, also where the call raises.
  pub load_matches-BestHits :
      (limit : ℕ) (s : Session)
      → let (result, s') = load_matches same u t text limit s in BestHits limit s result s'
  unfolding load_matches
  load_matches-BestHits limit s = answer s.active
    where
      answer :
          (b : Bool)
          → let found = filter (is_match same t (needle u text)) (joined s.db) in
            BestHits limit s
              (if b then ok (take limit (sort_by best_first found)) else err pending_rollback)
              s
      answer false = refl
      answer true =
          let found = filter (is_match same t (needle u text)) (joined s.db) in
          let hits = sort_by best_first found in
          (
            refl,
            page-All IsHit limit 0 hits (
                sort_by-All best_first IsHit found (
                  All-map _ _ found hit (
                    filter_both _ (is_match same t (needle u text)) (joined s.db)
                      (joined-All s.db)))),
            length-take-le limit hits,
            (
              hits,
              sort_by-perm best_first found,
              sort_by-IsSorted best_first best_first_total best_first_trans found,
              refl,
            ),
          )
