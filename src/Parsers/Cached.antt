-- ===== src/Parsers/Cached.antt =====
-- backend/app/parsers/option_parser.py, over the caches of backend/app/services/cache_service.py. The
-- table of results and its session stand apart from the others. The language model (llm_parser.py) is
-- a parameter, and so is reading a result back from JSON.
pub mod Stored
use price_checker.Base.{
  ℕ, Bool, true, false, ◌&&◌, ◌==◌, ◌≡◌, Option, none, some, is_some, List, [], ◌∷◌, ◌++◌, Text,
  codes, text_eq, any, find, take, if◌then◌else◌, Unicode, strip,
}
use price_checker.Errors.{Error, Result, ok, err}
use price_checker.Floats.{Floats}
use price_checker.Parsers.Options.{ParseResult, parse_option_text}
use price_checker.Search.Cache.{
  KeyValues, Codec, Hashes, make_option_text_key, cache_get_json_raw, cache_set_json_raw,
}

-- A row of `option_text_cache`, whose key is the hash alone.
pub record OptionTextCache (F : Type 0) : Type 0 where
  pub text_hash : Text
  pub raw_text : Text
  pub parsed_json : ParseResult F
  pub model_used : Text
  pub parser_version : ℕ

-- `to_dict`, and a value as a result where it is a dictionary with a unit.
pub record Dicts (F Json : Type 0) : Type 0 where
  pub to_dict : ParseResult F → Json
  pub from_dict : Json → Option (ParseResult F)
  pub from_dict-to_dict : (r : ParseResult F) → from_dict (to_dict r) ≡ some r

-- `_hash_text`
abbrev pub hash_text : Hashes → Unicode → Text → Text
hash_text hashes u text = hashes.sha256 (strip u text)

module _ {F : Type 0} where
  abbrev pub has_hash : Text → OptionTextCache F → Bool
  has_hash text_hash row = text_eq row.text_hash text_hash

  abbrev parsed_of : Option (OptionTextCache F) → Option (ParseResult F)
  parsed_of none = none
  parsed_of (some row) = some row.parsed_json

  -- `_get_from_postgres` with a session
  pub get_from_postgres : Text → ℕ → List (OptionTextCache F) → Option (ParseResult F)
  get_from_postgres text_hash parser_version rows = parsed_of (
      find
        (λ (row : OptionTextCache F).
          has_hash text_hash row && row.parser_version == parser_version)
        rows)

  -- `_upsert_postgres`, which does nothing where the hash is there.
  pub upsert_postgres :
      Text → Text → ParseResult F → Text → ℕ → List (OptionTextCache F) → List (OptionTextCache F)
  upsert_postgres text text_hash parsed model_used parser_version rows =
      let row : OptionTextCache F = record {
        text_hash = text_hash;
        raw_text = take 4096 text;
        parsed_json = parsed;
        model_used = model_used;
        parser_version = parser_version;
      } in
      if any (has_hash text_hash) rows then rows else rows ++ row ∷ []

module _ {F Store Payload Json : Type 0} (fl : Floats F) (u : Unicode) (hashes : Hashes)
    (redis : KeyValues Store Payload) (json : Codec Json Payload) (dicts : Dicts F Json)
    (parse_with_llm : Text → Option (ParseResult F))
    (option_cache_ttl_seconds parser_version : ℕ) where
  -- A result, and what is left of Redis and of the table.
  abbrev pub Parsed : Type 0
  Parsed = Result (Option (ParseResult F)) × Store × List (OptionTextCache F)

  key_of : Text → Text
  key_of text = make_option_text_key hashes u text parser_version

  abbrev set_parsed : Text → ParseResult F → Store → Store
  set_parsed text parsed st =
      cache_set_json_raw redis json (key_of text) (dicts.to_dict parsed) option_cache_ttl_seconds st

  -- Step 5: the result is stored in both caches.
  abbrev keep : Text → Text → Option (ParseResult F) → Store → List (OptionTextCache F) → Parsed
  keep text model_used none st rows = (ok none, st, rows)
  keep text model_used (some parsed) st rows = (
    ok (some parsed),
    set_parsed text parsed st,
    upsert_postgres text (hash_text hashes u text) parsed model_used parser_version rows,
  )

  -- Steps 3 and 4: the rules, and where they read nothing, the language model.
  abbrev by_rules :
      Text → Result (Option (ParseResult F)) → Store → List (OptionTextCache F) → Parsed
  by_rules text (err e) st rows = (err e, st, rows)
  by_rules text (ok none) st rows = keep text (codes "llm") (parse_with_llm text) st rows
  by_rules text (ok (some parsed)) st rows = keep text (codes "regex") (some parsed) st rows

  -- Step 2: the table.
  abbrev by_table : Text → Option (ParseResult F) → Store → List (OptionTextCache F) → Parsed
  by_table text (some parsed) st rows = (ok (some parsed), set_parsed text parsed st, rows)
  by_table text none st rows = by_rules text (parse_option_text fl u text) st rows

  abbrev read_dict : Option Json → Option (ParseResult F)
  read_dict none = none
  read_dict (some value) = dicts.from_dict value

  -- Step 1: Redis.
  abbrev by_redis : Text → Option (ParseResult F) → Store → List (OptionTextCache F) → Parsed
  by_redis text (some parsed) st rows = (ok (some parsed), st, rows)
  by_redis text none st rows =
      by_table text (get_from_postgres (hash_text hashes u text) parser_version rows) st rows

  parse_stripped : Text → Text → Store → List (OptionTextCache F) → Parsed
  parse_stripped [] text st rows = (ok none, st, rows)
  parse_stripped (c ∷ visible) text st rows =
      let (cached, st') = cache_get_json_raw redis json (key_of text) st in
      by_redis text (read_dict cached) st' rows

  pub parse_option : Text → Store → List (OptionTextCache F) → Parsed
  parse_option text st rows = parse_stripped (strip u text) text st rows
