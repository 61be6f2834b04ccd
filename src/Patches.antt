-- ===== src/Patches.antt =====
-- The update state of the fleet: frontend/src/pages/patches/patchList.ts.
-- `Filter` has the per-device figures and the filters, `Sort` the columns, `Stats` the summary, `Ios`
-- the phones; `List` has the rows, `Orders`, `Notices` and `Actions` the scans and installations of
-- PatchesPage.tsx beside it.
pub mod Filter
pub mod Sort
pub mod Stats
pub mod Ios
pub mod Orders
pub mod Notices
pub mod Actions
pub mod List
mod Tests
