-- ===== src/Parsers.antt =====
-- backend/app/parsers: amounts in the free text of an option.
pub mod Units
pub mod Patterns
pub mod Options
pub mod UnitPrice
pub mod Cached
