-- ===== src/TaskIntelligence/Retention/Steps.antt =====
-- plugins/task-intelligence/src/discovery/retention.ts: what a pass may do, as steps.
use openclaw_enterprise.Common.{
  ℕ, ◌+◌, ◌*◌, ℤ, pos, ◌+ℤ◌, ◌≤ℤ◌, String, List, [], ◌∷◌, Bool, true, Option, none, some,
  Bool-cases, Option-cases, inl, inr, In, here, there, ◌≡◌, refl, arith,
}
use openclaw_enterprise.Common.Text.{is_empty}
use mathlib.Core.Path.{subst}
use openclaw_enterprise.TaskIntelligence.Retention.{
  TaskRecord, TaskStore, is_older, is_due, archive_if_due, archive_completed, delete_if, delete_all,
  is_long_archived, is_stale, process_retention,
}

module _ {S : Type 0} (store : TaskStore S) (clock : String → Option ℤ) (now : ℤ)
    (times : ℕ → ℤ) where
  -- A text is that of a time so many days before `now`, or of an earlier one.
  abbrev pub IsDaysAgo : ℕ → String → Type 0
  IsDaysAgo days text = (t : ℤ) × (clock text ≡ some t) × (t +ℤ pos (days * 86400000) ≤ℤ now)

  -- From one state to another by so many archivings and purges, each of a task that is due, and that
  -- the store listed under its status at a state on the way.
  pub data Steps : ℕ → ℕ → S → S → Type 0 where
    none_left : {s : S} → Steps 0 0 s s
    archive :
        {a p b q c r : ℕ} {s u t : S} (task : TaskRecord) (text : String)
        → Steps a p s t
        → Steps b q s u
        → Steps c r u t
        → In task (store.find_by_status "completed" u)
        → task.completed_at ≡ some text
        → IsDaysAgo 30 text
        → Steps (a + 1) p s (
            store.update_status task.id "archived"
              (record { archived_at = times a; purge_at = now +ℤ pos (90 * 86400000) })
              t)
    purge_archived :
        {a p b q c r : ℕ} {s u t : S} (task : TaskRecord) (text : String)
        → Steps a p s t
        → Steps b q s u
        → Steps c r u t
        → In task (store.find_by_status "archived" u)
        → task.archived_at ≡ some text
        → IsDaysAgo 90 text
        → Steps a (p + 1) s (store.delete task.id t)
    purge_active :
        {a p b q c r : ℕ} {s u t : S} (task : TaskRecord)
        → Steps a p s t
        → Steps b q s u
        → Steps c r u t
        → In task (store.find_by_status "active" u)
        → IsDaysAgo 90 task.discovered_at
        → Steps a (p + 1) s (store.delete task.id t)
    purge_discovered :
        {a p b q c r : ℕ} {s u t : S} (task : TaskRecord)
        → Steps a p s t
        → Steps b q s u
        → Steps c r u t
        → In task (store.find_by_status "discovered" u)
        → IsDaysAgo 90 task.discovered_at
        → Steps a (p + 1) s (store.delete task.id t)

  -- By any steps.
  abbrev Leads : S → S → Type 0
  Leads s t = (a : ℕ) × (p : ℕ) × Steps a p s t

  is_older-IsDaysAgo :
      (days : ℕ) (text : String) → is_older now (clock text) days ≡ true → IsDaysAgo days text
  unfolding is_older
  is_older-IsDaysAgo days text h = elim (Option-cases (clock text)) [
    | inl nan ↦ let h' = rw nan at h in cc
    | inr (t, read) ↦ let h' = rw read at h in (t, read, ground (arith, h'))
  ]

  is_due-IsDaysAgo :
      (days : ℕ) (o : Option String)
      → is_due store clock now times days o ≡ true
      → (text : String) × (o ≡ some text) × IsDaysAgo days text
  unfolding is_due
  is_due-IsDaysAgo days none h = cc
  is_due-IsDaysAgo days (some text) h = elim (Bool-cases (is_empty text)) [
    | inl empty ↦ let h' = rw empty at h in cc
    | inr given ↦ let h' = rw given at h in (text, refl, is_older-IsDaysAgo days text h')
  ]

  plus_one : (p n : ℕ) → p + n + 1 ≡ p + (n + 1)
  plus_one p n = omega arith

  plus_zero : (n : ℕ) → 0 + n ≡ n + 0
  plus_zero n = omega arith

  -- The archivings of a pass: the completed tasks were listed at its start.
  archive_if_due-Steps :
      (task : TaskRecord) (p : ℕ) (s : S) (r : S × ℕ)
      → In task (store.find_by_status "completed" s)
      → Steps r.1 p s r.0
      → Steps
          (archive_if_due store clock now times task r).1
          p
          s
          (archive_if_due store clock now times task r).0
  archive_if_due-Steps task p s r listed h =
      elim (Bool-cases (is_due store clock now times 30 task.completed_at)) [
        | inl due ↦
            let (text, is, old) = is_due-IsDaysAgo 30 task.completed_at due in
            rw due (archive task text h none_left h listed is old)
        | inr fresh ↦ rw fresh h
      ]

  archive_completed-Steps :
      (tasks : List TaskRecord) (p : ℕ) (s : S) (r : S × ℕ)
      → ((task : TaskRecord) → In task tasks → In task (store.find_by_status "completed" s))
      → Steps r.1 p s r.0
      → Steps
          (archive_completed store clock now times tasks r).1
          p
          s
          (archive_completed store clock now times tasks r).0
  unfolding archive_completed
  archive_completed-Steps [] p s r listed h = h
  archive_completed-Steps (task ∷ tasks) p s r listed h =
      archive_completed-Steps tasks p s (archive_if_due store clock now times task r)
        (λ x m. listed x (there m)) (archive_if_due-Steps task p s r (listed task (here refl)) h)

  -- A task may be purged behind the state `u`, at which it was listed.
  abbrev MayPurge : S → TaskRecord → Type 0
  MayPurge u task =
      (a p c r : ℕ) (s t : S)
      → Leads s u
      → Steps a p s t
      → Steps c r u t
      → Steps a (p + 1) s (store.delete task.id t)

  delete_if-Steps :
      (test : TaskRecord → Bool) (task : TaskRecord) (a p : ℕ) (s u : S) (r : S × ℕ)
      → (test task ≡ true → MayPurge u task)
      → Leads s u
      → Steps a (p + r.1) s r.0
      → Leads u r.0
      → Steps a
          (p + (delete_if store clock now times test task r).1)
          s
          (delete_if store clock now times test task r).0
        × Leads u (delete_if store clock now times test task r).0
  delete_if-Steps test task a p s u r may su h (c, q, ut) = elim (Bool-cases (test task)) [
    | inl due ↦
        let t = store.delete task.id r.0 in
        let more = may due a (p + r.1) c q s r.0 su h ut in
        let behind = may due c q c q u r.0 (0, 0, none_left) ut ut in
        rw due (subst (λ n. Steps a n s t) (plus_one p r.1) more, (c, q + 1, behind))
    | inr fresh ↦ rw fresh (h, (c, q, ut))
  ]

  delete_all-Steps :
      (test : TaskRecord → Bool) (tasks : List TaskRecord) (a p : ℕ) (s u : S) (r : S × ℕ)
      → ((task : TaskRecord) → In task tasks → test task ≡ true → MayPurge u task)
      → Leads s u
      → Steps a (p + r.1) s r.0
      → Leads u r.0
      → Steps a
          (p + (delete_all store clock now times test tasks r).1)
          s
          (delete_all store clock now times test tasks r).0
  unfolding delete_all
  delete_all-Steps test [] a p s u r may su h ut = h
  delete_all-Steps test (task ∷ tasks) a p s u r may su h ut =
      let (h', ut') = delete_if-Steps test task a p s u r (may task (here refl)) su h ut in
      delete_all-Steps test tasks a p s u (delete_if store clock now times test task r)
        (λ x m. may x (there m)) su h' ut'

  -- A pass only archives tasks that were completed 30 days ago or more and purges tasks that were
  -- archived, or were found and are active or still new, 90 days ago or more; each of them was listed
  -- under that status at a state of the pass before: the end state is reached by such steps, as many
  -- of each as the pass counts, and an archived task is to be purged 90 days from now.
  pub process_retention-Steps :
      (s : S)
      → Steps
          (process_retention store clock now times s).1.archived
          ((process_retention store clock now times s).1.purged_from_archive
            + (process_retention store clock now times s).1.purged_stale)
          s
          (process_retention store clock now times s).0
  unfolding process_retention
  process_retention-Steps s =
      let nothing : (u : S) → Leads u u = λ u. (0, 0, none_left) in
      let r1 =
        archive_completed store clock now times (store.find_by_status "completed" s) (s, 0) in
      let step1 =
        archive_completed-Steps (store.find_by_status "completed" s) 0 s (s, 0) (λ x m. m)
          none_left in
      let long_archived = is_long_archived store clock now times in
      let stale = is_stale store clock now times in
      let r2 =
        delete_all store clock now times long_archived (store.find_by_status "archived" r1.0)
          (r1.0, 0) in
      let step2 =
        delete_all-Steps long_archived (store.find_by_status "archived" r1.0) r1.1 0 s r1.0
          (r1.0, 0)
          (λ x m due a p c r s t su st ut.
            let (_, _, su') = su in
            let (text, is, old) = is_due-IsDaysAgo 90 x.archived_at due in
            purge_archived x text st su' ut m is old)
          (r1.1, 0, step1) step1 (nothing r1.0) in
      let step2' = subst (λ n. Steps r1.1 n s r2.0) (plus_zero r2.1) step2 in
      let r3 =
        delete_all store clock now times stale (store.find_by_status "active" r2.0) (r2.0, 0) in
      let step3 =
        delete_all-Steps stale (store.find_by_status "active" r2.0) r1.1 r2.1 s r2.0 (r2.0, 0)
          (λ x m due a p c r s t su st ut.
            let (_, _, su') = su in
            purge_active x st su' ut m (is_older-IsDaysAgo 90 x.discovered_at due))
          (r1.1, r2.1 + 0, step2') step2' (nothing r2.0) in
      delete_all-Steps stale (store.find_by_status "discovered" r3.0) r1.1 r2.1 s r3.0 r3
        (λ x m due a p c r s t su st ut.
          let (_, _, su') = su in
          purge_discovered x st su' ut m (is_older-IsDaysAgo 90 x.discovered_at due))
        (r1.1, r2.1 + r3.1, step3) step3 (nothing r3.0)
