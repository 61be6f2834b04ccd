-- ===== src/Audit.antt =====
-- The filters of the audit log: frontend/src/pages/audit/auditLog.ts, lines 13 to 105, and what
-- frontend/src/pages/audit/AuditPage.tsx does with them. `Days` has the grouping.
pub mod Filters
pub mod Laws
mod Tests
