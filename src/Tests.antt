-- ===== src/Tests.antt =====
-- The theorems at concrete tables, with an ORM whose ids are one above the largest, and ASCII.
mod Doubles
mod Fixtures
mod Counters
mod Examples
mod Orders
mod Logins
mod Runs
mod Search
mod Tenants
