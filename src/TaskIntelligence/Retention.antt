-- ===== src/TaskIntelligence/Retention.antt =====
-- plugins/task-intelligence/src/discovery/retention.ts: tasks are archived and purged with age. The
-- store is an interface that other code implements: its operations are parameters.
pub mod Steps
pub mod Done
use openclaw_enterprise.Common.{
  ℕ, ◌+◌, ◌*◌, ℤ, pos, ◌+ℤ◌, ltb_ℤ, String, List, [], ◌∷◌, Bool, false, not, Option, none, some,
  if◌then◌else◌,
}
use openclaw_enterprise.Common.Text.{is_empty}

pub record TaskRecord : Type 0 where
  pub id : String
  pub status : String
  pub completed_at : Option String
  pub archived_at : Option String
  pub discovered_at : String

-- The fields that the archiving writes, as milliseconds.
pub record ArchiveFields : Type 0 where
  pub archived_at : ℤ
  pub purge_at : ℤ

pub record TaskStore (S : Type 0) : Type 0 where
  pub find_by_status : String → S → List TaskRecord
  pub update_status : String → String → ArchiveFields → S → S
  pub delete : String → S → S

pub record Counts : Type 0 where
  pub archived : ℕ
  pub purged_from_archive : ℕ
  pub purged_stale : ℕ

abbrev pub day_ms : ℕ
day_ms = 24 * 3600 * 1000

abbrev pub task_active_retention_days : ℕ
task_active_retention_days = 90

abbrev pub task_archive_after_days : ℕ
task_archive_after_days = 30

abbrev pub task_purge_after_archive_days : ℕ
task_purge_after_archive_days = 90

-- So many days lie between a time and `now`; `none` is `NaN`, of which no comparison holds.
unfoldable pub is_older : ℤ → Option ℤ → ℕ → Bool
is_older now none days = false
is_older now (some t) days = not (ltb_ℤ now (t +ℤ pos (days * day_ms)))

module _ {S : Type 0} (store : TaskStore S) (clock : String → Option ℤ) (now : ℤ)
    (times : ℕ → ℤ) where
  -- A time that may be missing; an empty text counts as missing.
  unfoldable pub is_due : ℕ → Option String → Bool
  is_due days none = false
  is_due days (some text) = if is_empty text then false else is_older now (clock text) days

  -- `times n` is the time of the archiving after `n` others, which the source reads anew.
  abbrev pub archive_fields : ℕ → ArchiveFields
  archive_fields n = record {
    archived_at = times n;
    purge_at = now +ℤ pos (task_purge_after_archive_days * day_ms);
  }

  -- 1. The loop over the completed tasks, on the state and the count.
  abbrev pub archive_if_due : TaskRecord → S × ℕ → S × ℕ
  archive_if_due task r =
      if is_due task_archive_after_days task.completed_at
      then (store.update_status task.id "archived" (archive_fields r.1) r.0, r.1 + 1)
      else r

  unfoldable pub archive_completed : List TaskRecord → S × ℕ → S × ℕ
  archive_completed [] r = r
  archive_completed (task ∷ tasks) r = archive_completed tasks (archive_if_due task r)

  -- 2. and 3. The loops that delete tasks, each with its test.
  abbrev pub delete_if : (TaskRecord → Bool) → TaskRecord → S × ℕ → S × ℕ
  delete_if test task r = if test task then (store.delete task.id r.0, r.1 + 1) else r

  unfoldable pub delete_all : (TaskRecord → Bool) → List TaskRecord → S × ℕ → S × ℕ
  delete_all test [] r = r
  delete_all test (task ∷ tasks) r = delete_all test tasks (delete_if test task r)

  abbrev pub is_long_archived : TaskRecord → Bool
  is_long_archived task = is_due task_purge_after_archive_days task.archived_at

  abbrev pub is_stale : TaskRecord → Bool
  is_stale task = is_older now (clock task.discovered_at) task_active_retention_days

  -- `processRetention`
  unfoldable pub process_retention : S → S × Counts
  process_retention s =
      let (s1, archived) = archive_completed (store.find_by_status "completed" s) (s, 0) in
      let (s2, purged_from_archive) =
        delete_all is_long_archived (store.find_by_status "archived" s1) (s1, 0) in
      let (s3, active) = delete_all is_stale (store.find_by_status "active" s2) (s2, 0) in
      let (s4, stale) = delete_all is_stale (store.find_by_status "discovered" s3) (s3, active) in
      (
        s4,
        record {
          archived = archived;
          purged_from_archive = purged_from_archive;
          purged_stale = stale;
        },
      )
