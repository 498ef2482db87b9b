-- ===== src/Home.antt =====
-- The home screen's figures: the task subjects, the triage thresholds and `buildHomeStats` of
-- frontend/src/lib/home-stats.ts.
pub mod Subjects
pub mod Config
pub mod Wording
pub mod Selection
pub mod Selects
pub mod Insights
pub mod Triage
pub mod Build
pub mod Belongs
pub mod InsightScope
pub mod Scope
mod Tests
pub mod Order
pub mod Counts
