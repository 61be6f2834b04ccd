-- ===== src/Devices.antt =====
-- The device list: frontend/src/pages/devices/deviceList.ts.
pub mod Filter
pub mod Version
pub mod Sort
pub mod Views
pub mod Page
pub mod Selection
mod Tests
