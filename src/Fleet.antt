-- ===== src/Fleet.antt =====
-- What the server sends about the fleet, and what the dashboard reads off one device:
-- frontend/src/types.ts, frontend/src/deviceClass.ts and frontend/src/deviceStatus.ts.
pub mod Types
pub mod People
pub mod Jobs
pub mod Status
pub mod Samples
