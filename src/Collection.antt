-- ===== src/Collection.antt =====
-- backend/app/price_collection: the jobs that collect prices for an order.
pub mod Jobs
pub mod Normalization
pub mod Runs
