-- ===== src/WorkTracking.antt =====
-- plugins/work-tracking/src.
pub mod PrJira
pub mod Updater
pub mod Hooks
