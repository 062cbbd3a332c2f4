-- ===== src/TaskIntelligence/Retention/Done.antt =====
-- plugins/task-intelligence/src/discovery/retention.ts: what a pass leaves in the store.
use openclaw_enterprise.Common.{
  ℕ, ℤ, String, List, [], ◌∷◌, Bool, true, false, not, ◌||◌, ◌&&◌, Option, select, any, Bool-cases,
  inl, inr, All, ◌≡◌, refl, sym, arith, str_eq, eq_refl,
}
use mathlib.Core.Path.{subst}
use openclaw_enterprise.TaskIntelligence.Retention.{
  TaskRecord, ArchiveFields, TaskStore, task_archive_after_days, is_due, archive_fields,
  archive_if_due, archive_completed, delete_if, delete_all, is_long_archived, is_stale,
  process_retention,
}

-- What the code relies on: a deletion takes the tasks of an id out of every answer, and an archiving
-- takes them out of the answers for other statuses.
pub record StoreLaws {S : Type 0} (store : TaskStore S) : Type 0 where
  pub find-delete :
      (status id : String) (s : S)
      → store.find_by_status status (store.delete id s)
        ≡ select (λ t. not (str_eq t.id id)) (store.find_by_status status s)
  pub find-archive :
      (status id : String) (fields : ArchiveFields) (s : S)
      → str_eq status "archived" ≡ false
      → store.find_by_status status (store.update_status id "archived" fields s)
        ≡ select (λ t. not (str_eq t.id id)) (store.find_by_status status s)

All-of-select :
    (P : TaskRecord → Type 0) (keep : TaskRecord → Bool) (ts : List TaskRecord)
    → All P ts
    → All P (select keep ts)
All-of-select P keep [] h = tt
All-of-select P keep (t ∷ ts) h = elim (Bool-cases (keep t)) [
  | inl kept ↦ rw kept (h.0, All-of-select P keep ts h.1)
  | inr gone ↦ rw gone (All-of-select P keep ts h.1)
]

-- A task that passes the test is still to come in the loop.
abbrev IsPending : (TaskRecord → Bool) → List TaskRecord → TaskRecord → Type 0
IsPending test rest t = (not (test t) || any (λ x. test x && str_eq t.id x.id) rest) ≡ true

-- Taking the first task out where it passes the test leaves the later ones to come.
IsPending-select :
    (test : TaskRecord → Bool) (task : TaskRecord) (rest ts : List TaskRecord)
    → All (IsPending test (task ∷ rest)) ts
    → All (IsPending test rest) (select (λ t. not (str_eq t.id task.id)) ts)
IsPending-select test task rest [] h = tt
IsPending-select test task rest (t ∷ ts) h =
    let ih = IsPending-select test task rest ts h.1 in
    let pending = h.0 in
    elim (Bool-cases (str_eq t.id task.id)) [
      | inl same ↦ rw same ih
      | inr other ↦ let pending' = rw other at pending in rw other (ground arith, ih)
    ]

IsPending-skip :
    (test : TaskRecord → Bool) (task : TaskRecord) (rest ts : List TaskRecord)
    → test task ≡ false
    → All (IsPending test (task ∷ rest)) ts
    → All (IsPending test rest) ts
IsPending-skip test task rest [] e h = tt
IsPending-skip test task rest (t ∷ ts) e h =
    let pending = h.0 in
    let pending' = rw e at pending in (ground arith, IsPending-skip test task rest ts e h.1)

IsPending-more :
    (test : TaskRecord → Bool) (task : TaskRecord) (rest ts : List TaskRecord)
    → All (IsPending test rest) ts
    → All (IsPending test (task ∷ rest)) ts
IsPending-more test task rest [] h = tt
IsPending-more test task rest (t ∷ ts) h =
    let pending = h.0 in (ground arith, IsPending-more test task rest ts h.1)

-- Before the loop every task is to come, and after it none is.
before_the_loop : (test : TaskRecord → Bool) (ts : List TaskRecord) → All (IsPending test ts) ts
before_the_loop test [] = tt
before_the_loop test (t ∷ ts) =
    let itself = eq_refl t.id in
    (ground (arith, itself), IsPending-more test t ts ts (before_the_loop test ts))

after_the_loop :
    (test : TaskRecord → Bool) (ts : List TaskRecord)
    → All (IsPending test []) ts
    → All (λ t. test t ≡ false) ts
after_the_loop test [] h = tt
after_the_loop test (t ∷ ts) h = let pending = h.0 in (ground arith, after_the_loop test ts h.1)

module _ {S : Type 0} (store : TaskStore S) (laws : StoreLaws store) (clock : String → Option ℤ)
    (now : ℤ) (times : ℕ → ℤ) where
  delete_if-IsPending :
      (test : TaskRecord → Bool) (status : String) (task : TaskRecord) (rest : List TaskRecord)
      (r : S × ℕ)
      → All (IsPending test (task ∷ rest)) (store.find_by_status status r.0)
      → All
          (IsPending test rest)
          (store.find_by_status status (delete_if store clock now times test task r).0)
  delete_if-IsPending test status task rest r h = elim (Bool-cases (test task)) [
    | inl due ↦ rw due (
        subst (All (IsPending test rest)) (sym (laws.find-delete status task.id r.0))
          (IsPending-select test task rest (store.find_by_status status r.0) h))
    | inr fresh ↦ rw fresh (IsPending-skip test task rest (store.find_by_status status r.0) fresh h)
  ]

  delete_all-IsPending :
      (test : TaskRecord → Bool) (status : String) (rest : List TaskRecord) (r : S × ℕ)
      → All (IsPending test rest) (store.find_by_status status r.0)
      → All
          (λ t. test t ≡ false)
          (store.find_by_status status (delete_all store clock now times test rest r).0)
  unfolding delete_all
  delete_all-IsPending test status [] r h = after_the_loop test (store.find_by_status status r.0) h
  delete_all-IsPending test status (task ∷ rest) r h =
      delete_all-IsPending test status rest (delete_if store clock now times test task r)
        (delete_if-IsPending test status task rest r h)

  -- A deletion makes no task appear.
  delete_all-All :
      (P : TaskRecord → Type 0) (test : TaskRecord → Bool) (status : String)
      (rest : List TaskRecord) (r : S × ℕ)
      → All P (store.find_by_status status r.0)
      → All P (store.find_by_status status (delete_all store clock now times test rest r).0)
  unfolding delete_all
  delete_all-All P test status [] r h = h
  delete_all-All P test status (task ∷ rest) r h =
      delete_all-All P test status rest (delete_if store clock now times test task r)
        (elim (Bool-cases (test task)) [
          | inl due ↦ rw due (
              subst (All P) (sym (laws.find-delete status task.id r.0)) (
                All-of-select P (λ t. not (str_eq t.id task.id)) (store.find_by_status status r.0)
                  h))
          | inr fresh ↦ rw fresh h
        ])

  -- A completed task that is due for archiving.
  abbrev pub archive_test : TaskRecord → Bool
  archive_test task = is_due store clock now times task_archive_after_days task.completed_at

  archive_completed-IsPending :
      (rest : List TaskRecord) (r : S × ℕ)
      → All (IsPending archive_test rest) (store.find_by_status "completed" r.0)
      → All
          (λ t. archive_test t ≡ false)
          (store.find_by_status "completed" (archive_completed store clock now times rest r).0)
  unfolding archive_completed
  archive_completed-IsPending [] r h =
      after_the_loop archive_test (store.find_by_status "completed" r.0) h
  archive_completed-IsPending (task ∷ rest) r h =
      archive_completed-IsPending rest (archive_if_due store clock now times task r)
        (elim (Bool-cases (archive_test task)) [
          | inl due ↦ rw due (
              subst (All (IsPending archive_test rest))
                (sym (
                  laws.find-archive "completed" task.id (archive_fields store clock now times r.1)
                    r.0 refl))
                (IsPending-select archive_test task rest (store.find_by_status "completed" r.0) h))
          | inr fresh ↦
              rw fresh (
                IsPending-skip archive_test task rest (store.find_by_status "completed" r.0) fresh
                  h)
        ])

  -- In a store that keeps these laws, a pass leaves no completed task that is due for archiving, no
  -- archived one that is due for purging and no active or discovered one that is stale.
  pub process_retention_done :
      (s : S)
      → All
          (λ t. archive_test t ≡ false)
          (store.find_by_status "completed" (process_retention store clock now times s).0)
        × All
            (λ t. is_long_archived store clock now times t ≡ false)
            (store.find_by_status "archived" (process_retention store clock now times s).0)
        × All
            (λ t. is_stale store clock now times t ≡ false)
            (store.find_by_status "active" (process_retention store clock now times s).0)
        × All
            (λ t. is_stale store clock now times t ≡ false)
            (store.find_by_status "discovered" (process_retention store clock now times s).0)
  unfolding process_retention
  process_retention_done s =
      let long = is_long_archived store clock now times in
      let stale = is_stale store clock now times in
      let l1 = store.find_by_status "completed" s in
      let r1 = archive_completed store clock now times l1 (s, 0) in
      let l2 = store.find_by_status "archived" r1.0 in
      let r2 = delete_all store clock now times long l2 (r1.0, 0) in
      let l3 = store.find_by_status "active" r2.0 in
      let r3 = delete_all store clock now times stale l3 (r2.0, 0) in
      let l4 = store.find_by_status "discovered" r3.0 in
      let done1 = archive_completed-IsPending l1 (s, 0) (before_the_loop archive_test l1) in
      let done2 = delete_all-IsPending long "archived" l2 (r1.0, 0) (before_the_loop long l2) in
      let done3 = delete_all-IsPending stale "active" l3 (r2.0, 0) (before_the_loop stale l3) in
      (
        delete_all-All (λ t. archive_test t ≡ false) stale "completed" l4 r3
            (delete_all-All (λ t. archive_test t ≡ false) stale "completed" l3 (r2.0, 0)
              (delete_all-All (λ t. archive_test t ≡ false) long "completed" l2 (r1.0, 0) done1)),
        delete_all-All (λ t. long t ≡ false) stale "archived" l4 r3
            (delete_all-All (λ t. long t ≡ false) stale "archived" l3 (r2.0, 0) done2),
        delete_all-All (λ t. stale t ≡ false) stale "active" l4 r3 done3,
        delete_all-IsPending stale "discovered" l4 r3 (before_the_loop stale l4),
      )
