-- ===== src/Models.antt =====
-- The tables of backend/app/*/models.py, one record for a row. Rows keep every column that is
-- written or read somewhere, but `updated_at`, which only the database writes, and the
-- relationship attributes, which are joins over the foreign keys kept here. Columns whose CHECK
-- constraint or schema lists the values have a data type of these values. Prices of type
-- Numeric(12, 2) are counted in hundredths; instants are counted in microseconds.
pub mod Tenancy
pub mod Procurement
pub mod Collection
pub mod Notification
