-- ===== src/Palette.antt =====
-- The command palette: frontend/src/shell/palette/ranking.ts and recent.ts, and the labels of
-- frontend/src/deviceLabel.ts.
pub mod Tier
pub mod Score
pub mod Rank
pub mod Recent
pub mod Model
pub mod Build
pub mod Label
mod Tests
