-- ===== src/Parsers/Cached/Stored.antt =====
-- What the table of backend/app/parsers/option_parser.py keeps.
use price_checker.Base.{ℕ, true, ◌≡◌, List, Text, any, none}
use price_checker.Parsers.Options.{ParseResult}
use price_checker.Parsers.Cached.{OptionTextCache, has_hash, get_from_postgres, upsert_postgres}

-- Where a hash is stored for another version of the parser, a result for this version is not
-- stored, so it is not found later: the key of the table is the hash alone.
pub version_blocked :
    {F : Type 0} (text text_hash model : Text) (parsed : ParseResult F) (version : ℕ)
    (rows : List (OptionTextCache F))
    → any (has_hash text_hash) rows ≡ true
    → get_from_postgres text_hash version rows ≡ none
    → get_from_postgres text_hash version (upsert_postgres text text_hash parsed model version rows)
      ≡ none
unfolding upsert_postgres
version_blocked text text_hash model parsed version rows there unread = rw there unread
