-- ===== src/Accounts.antt =====
-- The accounts of the administration page: frontend/src/pages/admin/accounts.ts and
-- confirmations.ts.
pub mod Forms
pub mod Sort
pub mod Confirm
mod Tests
