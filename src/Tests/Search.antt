-- ===== src/Tests/Search.antt =====
-- Each theorem on searches, with a cache that keeps responses as they are.
use price_checker.Base.{
  ℕ, ◌==◌, ◌≡◌, refl, [], ◌∷◌, ◌++◌, none, some, Option, Text, codes, text_eq, text_eq_refl, ascii,
  strip, str_int, sort_by, if◌then◌else◌, false,
}
use price_checker.Errors.{ok}
use price_checker.Database.{◌>>=◌}
use price_checker.Quota.{check_and_consume, count}
use price_checker.Search.Like.{ilike, contains}
use price_checker.Search.Query.{needle, load_matches}
use price_checker.Search.Query.Needle.{ilike-needle}
use price_checker.Search.Query.Matches.{BestHits, load_matches-BestHits}
use price_checker.Search.Cache.{
  KeyValues, Codec, Hashes, make_search_key, tenant_key, cache_get_json, cache_get_json_raw,
  cache_set_json, cache_set_json_raw,
}
use price_checker.Search.Run.{
  SearchResponse, Pydantic, valid, as_cached, run_search, search_by_key, search_anew, search_tables,
  respond,
}
use price_checker.Search.Run.Cached.{run_search-Cached}
use price_checker.Tests.Fixtures.{session}
use price_checker.Tests.Counters.{counters, clock, unused}

ilike-needle_example :
    ilike (λ c d. c == d) (needle ascii (codes "100%")) (codes "cotton 100% white")
    ≡ contains (λ c d. c == d) (strip ascii (codes "100%")) (codes "cotton 100% white")
ilike-needle_example = ilike-needle (λ c d. c == d) ascii (codes "100%") (codes "cotton 100% white")

load_matches-BestHits_example :
    let (result, s) = load_matches (λ c d. c == d) ascii 1 (codes "rice") 20 session in
    BestHits (λ c d. c == d) ascii 1 (codes "rice") 20 session result s
load_matches-BestHits_example =
    load_matches-BestHits (λ c d. c == d) ascii 1 (codes "rice") 20 session

abbrev Kept : Type 0
Kept = Text → Option SearchResponse

abbrev kept_set : Text → SearchResponse → ℕ → Kept → Kept
kept_set k v ttl st j = if text_eq j k then some v else st j

abbrev kept_delete : Text → Kept → Kept
kept_delete k st j = if text_eq j k then none else st j

is_set : (k : Text) (v : SearchResponse) (ttl : ℕ) (st : Kept) → kept_set k v ttl st k ≡ some v
is_set k v ttl st = rw (text_eq_refl k) refl

is_deleted : (k : Text) (st : Kept) → kept_delete k st k ≡ none
is_deleted k st = rw (text_eq_refl k) refl

abbrev cache : KeyValues Kept SearchResponse
unfolding is_set is_deleted
cache = record {
  get = λ k st. st k;
  set = kept_set;
  delete = kept_delete;
  get-set = is_set;
  get-delete = is_deleted;
}

abbrev as_it_is : Codec SearchResponse SearchResponse
as_it_is = record { dumps = λ v. v; loads = λ v. some v; loads-dumps = λ v. refl }

same_response : (t : ℕ) (v r : SearchResponse) → valid (as_cached t v) ≡ valid r → as_cached t r ≡ r
same_response t v r e = let is : as_cached t v ≡ r = cc e in rw⁻¹ is refl

abbrev responses : Pydantic SearchResponse
unfolding same_response
responses = record {
  model_dump = λ r. r;
  model_validate = λ t v. valid (as_cached t v);
  model_validate-model_dump = λ t r. refl;
  model_validate-cached = same_response;
}

abbrev hashes : Hashes
hashes = record { md5 = λ s. s; sha256 = λ s. s }

abbrev empty : Kept
empty k = none

abbrev nothing_found : SearchResponse
nothing_found = record {
  query = codes "zzz";
  limit = 20;
  tenant_id = 1;
  results = [];
  sources = [];
  cached = false;
  hint = some (codes "no_uploaded_results");
}

abbrev key : Text
key = codes "search:" ++ (str_int 1 ++ b':' ∷ (codes "zzz" ++ b'|' ∷ str_int 20))

is_answered :
    run_search
      (λ c d. c == d)
      ascii
      hashes
      cache
      as_it_is
      responses
      60
      counters
      clock
      1
      5
      (codes "zzz")
      20
      false
      unused
      empty
      session
    ≡ (
      (check_and_consume counters clock 1 5 1 unused).1,
      (ok nothing_found, kept_set (tenant_key 1 key) nothing_found 60 empty, session),
    )
unfolding run_search make_search_key search_by_key cache_get_json cache_get_json_raw cache_set_json
    cache_set_json_raw search_anew search_tables respond load_matches check_and_consume count
    text_eq strip ascii cache responses counters sort_by ◌>>=◌
is_answered = refl

is_charged : (check_and_consume counters clock 1 5 1 unused).0 ≡ ok 1
unfolding check_and_consume count counters text_eq
is_charged = refl

run_search-Cached_example :
    (run_search
      (λ c d. c == d)
      ascii
      hashes
      cache
      as_it_is
      responses
      60
      counters
      clock
      1
      5
      (codes "zzz")
      20
      false
      unused
      (kept_set (tenant_key 1 key) nothing_found 60 empty)
      session).1
    ≡ (ok (as_cached 1 nothing_found), kept_set (tenant_key 1 key) nothing_found 60 empty, session)
run_search-Cached_example =
    run_search-Cached (λ c d. c == d) ascii hashes cache as_it_is responses 60 counters clock 1 5 5
      (codes "zzz") 20 false unused (check_and_consume counters clock 1 5 1 unused).1 unused empty
      (kept_set (tenant_key 1 key) nothing_found 60 empty) session session session nothing_found 1
      is_answered is_charged
