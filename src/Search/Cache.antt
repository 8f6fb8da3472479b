-- ===== src/Search/Cache.antt =====
-- backend/app/services/cache_service.py. Redis, the hashes and the reading and writing of JSON are
-- parameters: `Json` is the type of the values that `json.loads` gives, and `Payload` that of the texts
-- that `json.dumps` writes, into which nothing here looks.
use price_checker.Base.{
  ℕ, zero, suc, ◌≡◌, Option, none, some, Text, codes, ◌++◌, ◌∷◌, str_int, Unicode, strip,
}
use price_checker.Errors.{Result, ok, err, value_error}

-- GET, SET with an end that is to come, and DEL.
pub record KeyValues (Store Payload : Type 0) : Type 0 where
  pub get : Text → Store → Option Payload
  pub set : Text → Payload → ℕ → Store → Store
  pub delete : Text → Store → Store
  pub get-set : (k : Text) (v : Payload) (ttl : ℕ) (st : Store) → get k (set k v ttl st) ≡ some v
  pub get-delete : (k : Text) (st : Store) → get k (delete k st) ≡ none

pub record Codec (Json Payload : Type 0) : Type 0 where
  -- `json.dumps`, and `json.loads` where `none` is a `JSONDecodeError`
  pub dumps : Json → Payload
  pub loads : Payload → Option Json
  pub loads-dumps : (v : Json) → loads (dumps v) ≡ some v

-- `hexdigest` of a text's bytes.
pub record Hashes : Type 0 where
  pub md5 : Text → Text
  pub sha256 : Text → Text

-- `_require_tenant_id`, of a number that is not below 0.
abbrev pub for_tenant {ℓ} : {A : Type ℓ} → ℕ → A → Result A
for_tenant zero a = err value_error
for_tenant (suc _) a = ok a

abbrev pub tenant_key : ℕ → Text → Text
tenant_key tenant_id key = codes "tenant:" ++ (str_int tenant_id ++ b':' ∷ key)

pub tenant_namespace : ℕ → Text → Result Text
tenant_namespace tenant_id key = for_tenant tenant_id (tenant_key tenant_id key)

unfoldable pub make_search_key : Hashes → Unicode → ℕ → Text → ℕ → Result Text
make_search_key hashes u tenant_id query limit = for_tenant tenant_id (
    codes "search:"
    ++ (str_int tenant_id ++ b':' ∷ hashes.md5 (u.lower (strip u query) ++ b'|' ∷ str_int limit)))

pub make_option_text_key : Hashes → Unicode → Text → ℕ → Text
make_option_text_key hashes u text parser_version =
    codes "option:" ++ (str_int parser_version ++ b':' ∷ hashes.sha256 (strip u text))

module _ {Store Payload Json : Type 0} (redis : KeyValues Store Payload)
    (json : Codec Json Payload) where
  -- A text that is not JSON is deleted.
  abbrev decoded : Text → Option Json → Store → Option Json × Store
  decoded key none st = (none, redis.delete key st)
  decoded key (some v) st = (some v, st)

  abbrev loaded : Text → Option Payload → Store → Option Json × Store
  loaded key none st = (none, st)
  loaded key (some payload) st = decoded key (json.loads payload) st

  -- The value, where `none` is a missing one.
  unfoldable pub cache_get_json_raw : Text → Store → Option Json × Store
  cache_get_json_raw key st = loaded key (redis.get key st) st

  unfoldable pub cache_set_json_raw : Text → Json → ℕ → Store → Store
  cache_set_json_raw key value ttl_seconds st = redis.set key (json.dumps value) ttl_seconds st

  unfoldable pub cache_get_json : ℕ → Text → Store → Result (Option Json) × Store
  unfolding cache_get_json_raw
  cache_get_json zero key st = (err value_error, st)
  cache_get_json (suc t) key st =
      let (found, st') = cache_get_json_raw (tenant_key (suc t) key) st in (ok found, st')

  unfoldable pub cache_set_json : ℕ → Text → Json → ℕ → Store → Result (Unit {0}) × Store
  unfolding cache_set_json_raw
  cache_set_json zero key value ttl_seconds st = (err value_error, st)
  cache_set_json (suc t) key value ttl_seconds st =
      (ok tt, cache_set_json_raw (tenant_key (suc t) key) value ttl_seconds st)

  pub cache_delete : ℕ → Text → Store → Result (Unit {0}) × Store
  cache_delete zero key st = (err value_error, st)
  cache_delete (suc t) key st = (ok tt, redis.delete (tenant_key (suc t) key) st)
