-- ===== src/Alerts.antt =====
-- The alert centre: frontend/src/pages/alerts/alertList.ts. `Tabs` sorts alerts into tabs, `Order`
-- has the urgency and the order of the list, `Ack` the rounds of acknowledgements.
pub mod Tabs
pub mod Order
pub mod Ack
pub mod Report
pub mod Badge
pub mod ListState
pub mod Desk
mod Tests
