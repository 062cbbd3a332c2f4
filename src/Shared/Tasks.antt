-- ===== src/Shared/Tasks.antt =====
-- plugins/shared/src/types.ts: the types of tasks.
use openclaw_enterprise.Common.{ℕ, String, List, Option}
use openclaw_enterprise.Shared.Types.{DataClassificationLevel}

pub data TaskStatus : Type 0 where
  discovered active completed archived purged : TaskStatus

pub record TaskSource : Type 0 where
  pub system : String
  pub id : String
  pub url : String

-- Seniorities and counts are natural numbers.
pub record UrgencySignals : Type 0 where
  pub sender_seniority : Option ℕ
  pub follow_up_count : ℕ
  pub sla_timer : Option String
  pub blocking_relationships : List String

-- The fields of `Task` that are read.
pub record Task : Type 0 where
  pub id : String
  pub title : String
  pub priority_score : ℕ
  pub status : TaskStatus
  pub sources : List TaskSource
  pub deadline : Option String
  pub urgency_signals : UrgencySignals
  pub classification : DataClassificationLevel
