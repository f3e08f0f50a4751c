-- ===== src/Endpoints.antt =====
-- web/src/lib/api/endpoints.ts: one function for each backend route, and the sum of them.
pub mod Calls
pub mod Network
pub mod Ledger
pub mod Deposits
pub mod Payments
pub mod AllAccounts
pub mod Endpoint
