-- ===== src/Bulk.antt =====
-- Bulk actions: frontend/src/pages/devices/bulk.ts. `Run` is `runBulk`, `Selection` is `partition`.
pub mod Run
pub mod Selection
mod Tests
