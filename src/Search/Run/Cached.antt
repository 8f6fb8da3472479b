-- ===== src/Search/Run/Cached.antt =====
-- The cache of `run_search` in backend/app/services/search_service.py gives what was answered.
use price_checker.Base.{
  ℕ, zero, suc, Bool, true, false, ◌≡◌, refl, sym, ap, ◌∙◌, subst, Option, none, some, Text,
  Unicode, ltb, ◌||◌, if◌then◌else◌,
}
use price_checker.Errors.{Result, ok, err, value_error}
use price_checker.Database.{Session}
use price_checker.Quota.{Redis, Clock, check_and_consume}
use price_checker.Search.Cache.{
  KeyValues, Codec, Hashes, cache_get_json, cache_get_json_raw, cache_set_json, cache_set_json_raw,
  tenant_key, make_search_key,
}
use price_checker.Search.Run.{
  SearchResponse, Validated, no_dict, malformed, valid, as_cached, Pydantic, run_search,
  search_tables, search_anew, search_by_key, answered,
}

module _ {Store Payload Json : Type 0} (same : ℕ → ℕ → Bool) (u : Unicode) (hashes : Hashes)
    (redis : KeyValues Store Payload) (json : Codec Json Payload) (pydantic : Pydantic Json)
    (ttl : ℕ) where
  -- What an answer is: its session apart.
  abbrev Answer : Type 0
  Answer = Result SearchResponse × Store × Session

  module _ (t : ℕ) (key text : Text) (limit : ℕ) where
    -- A value in the cache that is read as this response.
    Holds : Store → SearchResponse → Type 0
    Holds st r =
        (payload : Payload) × (v : Json) × (redis.get (tenant_key (suc t) key) st ≡ some payload)
        × (json.loads payload ≡ some v)
        × (pydantic.model_validate (suc t) v ≡ valid (as_cached (suc t) r))

    again :
        (st : Store) (s : Session) (r : SearchResponse)
        → Holds st r
        → search_by_key same u hashes redis json pydantic ttl (suc t) text limit false (ok key) st s
          ≡ (ok (as_cached (suc t) r), st, s)
    unfolding Holds search_by_key cache_get_json cache_get_json_raw
    again st s r (payload, v, got, read, is) = rw (got, read, is) refl

    kept :
        (x : Result SearchResponse × Session) (st st' : Store) (s' : Session) (r : SearchResponse)
        → answered same u hashes redis json pydantic ttl (suc t) key x st ≡ (ok r, st', s')
        → Holds st' r
    unfolding Holds cache_set_json cache_set_json_raw
    kept (err e, s) st st' s' r h = absurd (cc h)
    kept (ok q, s) st st' s' r h =
        let same_response : q ≡ r = cc h in
        let written : redis.set (tenant_key (suc t) key) (json.dumps (pydantic.model_dump q)) ttl st
            ≡ st' =
          cc h in
        (
          json.dumps (pydantic.model_dump q),
          pydantic.model_dump q,
          subst
              (λ z.
                redis.get (tenant_key (suc t) key) z ≡ some (json.dumps (pydantic.model_dump q)))
              written (redis.get-set (tenant_key (suc t) key) _ ttl st),
          json.loads-dumps (pydantic.model_dump q),
          subst
              (λ z.
                pydantic.model_validate (suc t) (pydantic.model_dump q)
                ≡ valid (as_cached (suc t) z))
              same_response (pydantic.model_validate-model_dump (suc t) q),
        )

    kept_anew :
        (st st' : Store) (s s' : Session) (r : SearchResponse)
        → search_anew same u hashes redis json pydantic ttl (suc t) key text limit st s
          ≡ (ok r, st', s')
        → Holds st' r
    unfolding search_anew
    kept_anew st st' s s' r h =
        kept (search_tables same u hashes redis json pydantic ttl (suc t) text limit s) st st' s' r
          h

    kept_read :
        (st st' : Store) (s s' : Session) (r : SearchResponse)
        → search_by_key same u hashes redis json pydantic ttl (suc t) text limit false (ok key) st s
          ≡ (ok r, st', s')
        → Holds st' r
    unfolding search_by_key cache_get_json cache_get_json_raw
    kept_read st st' s s' r h = by_get (redis.get (tenant_key (suc t) key) st) refl
      where
        by_value :
            (payload : Payload) (v : Json) (w : Validated)
            → redis.get (tenant_key (suc t) key) st ≡ some payload
            → json.loads payload ≡ some v
            → pydantic.model_validate (suc t) v ≡ w
            → Holds st' r
        by_value payload v no_dict got read is = kept_anew _ st' s s' r (rw (got, read, is) at h)
        by_value payload v malformed got read is = kept_anew _ st' s s' r (rw (got, read, is) at h)
        by_value payload v (valid q) got read is =
            let end : ◌≡◌ {A = Answer} (ok q, st, s) (ok r, st', s') = rw (got, read, is) at h in
            let same_response : q ≡ r = cc end in
            let unchanged : st ≡ st' = cc end in
            unfold Holds in
            (
              payload,
              v,
              subst (λ z. redis.get (tenant_key (suc t) key) z ≡ some payload) unchanged got,
              read,
              is
                  ∙ ap (λ z. valid z)
                      (sym (pydantic.model_validate-cached (suc t) v q is)
                        ∙ ap (as_cached (suc t)) same_response),
            )

        by_loads :
            (payload : Payload) (o : Option Json)
            → redis.get (tenant_key (suc t) key) st ≡ some payload
            → json.loads payload ≡ o
            → Holds st' r
        by_loads payload none got read = kept_anew _ st' s s' r (rw (got, read) at h)
        by_loads payload (some v) got read =
            by_value payload v (pydantic.model_validate (suc t) v) got read refl

        by_get : (o : Option Payload) → redis.get (tenant_key (suc t) key) st ≡ o → Holds st' r
        by_get none got = kept_anew _ st' s s' r (rw got at h)
        by_get (some payload) got = by_loads payload (json.loads payload) got refl

    kept_key :
        (force : Bool) (st st' : Store) (s s' : Session) (r : SearchResponse)
        → search_by_key same u hashes redis json pydantic ttl (suc t) text limit force (ok key) st s
          ≡ (ok r, st', s')
        → Holds st' r
    kept_key false st st' s s' r h = kept_read st st' s s' r h
    kept_key true st st' s s' r h = unfold search_by_key in kept_anew _ st' s s' r h

  module _ {Counters : Type 0} (counters : Redis Counters) (clock : Clock) where
    -- The limit and the charge of a search that returns.
    within :
        (b : Bool) (counts : Counters) (st : Store) (s : Session) (charge : Result ℕ × Counters)
        (x : Answer) {counts' : Counters} {r : SearchResponse} {st' : Store} {s' : Session}
        → ◌≡◌ {A = Counters × Answer}
            (if b
              then (counts, (err value_error, st, s))
              else (charge.1, elim charge.0 [ err e ↦ (err e, st, s) | ok _ ↦ x ]))
            (counts', (ok r, st', s'))
        → (b ≡ false) × (x ≡ (ok r, st', s'))
    within true counts st s charge x h = absurd (cc h)
    within false counts st s (err e, c) x h = absurd (cc h)
    within false counts st s (ok n, c) x h = (refl, cc h)

    -- After a search that returned a response, from the tables or from the cache, the same
    -- search that may use the cache, where the quota allows it, returns the same response
    -- marked as cached, whatever the tables are then, and changes neither the cache nor the
    -- session.
    pub run_search-Cached :
        (t quota quota' : ℕ) (text : Text) (limit : ℕ) (force : Bool)
        (counts counts' later : Counters) (st st' : Store) (s s' now : Session) (r : SearchResponse)
        (n : ℕ)
        → run_search same u hashes redis json pydantic ttl counters clock t quota text limit force
            counts st s
          ≡ (counts', (ok r, st', s'))
        → (check_and_consume counters clock t quota' 1 later).0 ≡ ok n
        → (run_search same u hashes redis json pydantic ttl counters clock t quota' text limit false
            later st' now).1
          ≡ (ok (as_cached t r), st', now)
    unfolding run_search make_search_key search_by_key
    run_search-Cached zero quota quota' text limit force counts counts' later st st' s s' now r n
          first charged =
        let (_, h) =
          within (ltb limit 1 || ltb 100 limit) counts st s
            (check_and_consume counters clock zero quota 1 counts) _ first in
        absurd (cc h)
    run_search-Cached (suc t) quota quota' text limit force counts counts' later st st' s s' now r n
          first charged =
        let (small, h) =
          within (ltb limit 1 || ltb 100 limit) counts st s
            (check_and_consume counters clock (suc t) quota 1 counts) _ first in
        rw (small, charged)
          (again t _ text limit st' now r (kept_key t _ text limit force st st' s s' r h))
