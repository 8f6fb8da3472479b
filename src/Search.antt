-- ===== src/Search.antt =====
-- The parts of a search in backend/app/services: Ranking and Shipping.
pub mod Like
pub mod Cache
pub mod Query
pub mod Run
pub mod Ranking
pub mod Shipping
