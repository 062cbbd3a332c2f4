-- ===== src/TaskIntelligence/Scanner.antt =====
-- plugins/task-intelligence/src/discovery/scanner.ts: tasks from what the connectors and Slack give.
use openclaw_enterprise.Common.{ℕ, String, List, [], ◌∷◌, ◌++◌, map, Option, none, some, get_or}
use openclaw_enterprise.Shared.Types.{DataClassificationLevel, ConnectorReadStatus}
use openclaw_enterprise.Shared.Tasks.{TaskSource, UrgencySignals}

pub record DiscoveredTask : Type 0 where
  pub title : String
  pub description : String
  pub source : TaskSource
  pub classification : DataClassificationLevel
  pub deadline : Option String
  pub urgency_signals : UrgencySignals
  pub discovered_at : String

-- `metadata`: the fields that are read, of the types that the code casts them to.
pub record Metadata : Type 0 where
  pub deadline : Option String
  pub sender_seniority : Option ℕ
  pub follow_up_count : Option ℕ
  pub sla_timer : Option String
  pub blocking_relationships : Option (List String)

-- The fields of an item that are read.
pub record FoundItem : Type 0 where
  pub source_id : String
  pub title : String
  pub summary : String
  pub classification : DataClassificationLevel
  pub url : String
  pub metadata : Metadata

pub record ReadResult : Type 0 where
  pub items : List FoundItem
  pub connector_status : ConnectorReadStatus

-- How a promise of `Promise.allSettled` ended.
pub data Settled : Type 0 where
  fulfilled : String → ReadResult → Settled
  rejected : Settled

-- `extractTask`; `now` is the text of the current time.
abbrev pub extract_task : String → String → FoundItem → DiscoveredTask
extract_task now connector_type item = record {
  title = item.title;
  description = item.summary;
  source = record { system = connector_type; id = item.source_id; url = item.url };
  classification = item.classification;
  deadline = item.metadata.deadline;
  urgency_signals = record {
    sender_seniority = item.metadata.sender_seniority;
    follow_up_count = get_or item.metadata.follow_up_count 0;
    sla_timer = item.metadata.sla_timer;
    blocking_relationships = get_or item.metadata.blocking_relationships [];
  };
  discovered_at = now;
}

-- The tasks of one connector: none where it failed.
abbrev pub tasks_of : String → Settled → List DiscoveredTask
tasks_of now rejected = []
tasks_of now (fulfilled type_ result) = elim result.connector_status [
  | ConnectorReadStatus.error ↦ []
  | _ ↦ map (extract_task now type_) result.items
]

-- The loop over the results.
unfoldable pub scan_results : String → List Settled → List DiscoveredTask
scan_results now [] = []
scan_results now (r ∷ results) = tasks_of now r ++ scan_results now results

-- `scan`; `slack` is how the read of the Slack messages ended, `none` where there is no reader.
unfoldable pub scan : String → List Settled → Option Settled → List DiscoveredTask
scan now results slack = scan_results now results ++ (elim slack [
  | none ↦ []
  | some rejected ↦ []
  | some (fulfilled _ result) ↦ map (extract_task now "slack") result.items
])
