-- ===== src/Procurement.antt =====
-- `ProcurementService` of backend/app/procurement/service.py: orders, the results uploaded for them,
-- and the report on savings.
pub mod Orders
pub mod Results
pub mod Savings
