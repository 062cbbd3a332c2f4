-- ===== src/TaskIntelligence.antt =====
-- plugins/task-intelligence/src.
pub mod Scanner
pub mod Scorer
pub mod Retention
pub mod Correlator
