-- ===== src/AutoResponse/Queue/Once.antt =====
-- Over any sequence of calls an entry of the queue is decided at most once.
use openclaw_enterprise.Common.{
  ℕ, suc, ◌+◌, ◌≤◌, String, List, [], ◌∷◌, true, Option, some, none, Option-cases, Bool-cases, inl,
  inr, ◌⊎◌, ◌≡◌, ◌≢◌, refl, sym, ◌∙◌, arith, lookup, lookup-insert, lookup-remove, str_eq, eq_iff,
  if◌then◌else◌,
}
use openclaw_enterprise.Common.Text.{decimal_inj_behind}
use openclaw_enterprise.Shared.Errors.{Result, ok, throw}
use openclaw_enterprise.AutoResponse.Queue.{
  NewResponse, PendingResponse, ApprovalActionResult, Decision, approved, rejected, QueueState,
  AuditLog, new_queue, entry_id, enqueue, approve, reject, decide,
}

-- The calls that change the queue, with their arguments.
pub data Call : Type 0 where
  enqueuing : (now : String) (response : NewResponse) → Call
  approving rejecting : (id tenant_id user_id : String) → Call

unfoldable pub on_call : AuditLog → QueueState → Call → QueueState
on_call audit_log s (enqueuing now response) = (enqueue audit_log now response s).1
on_call audit_log s (approving id tenant_id user_id) = (approve audit_log id tenant_id user_id s).1
on_call audit_log s (rejecting id tenant_id user_id) = (reject audit_log id tenant_id user_id s).1

abbrev succeeded : Result ApprovalActionResult → ℕ
succeeded (ok a) = 1
succeeded (throw e) = 0

-- 1 where the call approves or rejects the entry and succeeds, else 0.
unfoldable pub decides : AuditLog → String → QueueState → Call → ℕ
decides audit_log id s (enqueuing now response) = 0
decides audit_log id s (approving j tenant_id user_id) =
    if str_eq j id then succeeded (approve audit_log j tenant_id user_id s).0 else 0
decides audit_log id s (rejecting j tenant_id user_id) =
    if str_eq j id then succeeded (reject audit_log j tenant_id user_id s).0 else 0

-- How often a sequence of calls hands out the entry `id`.
unfoldable pub count_decided : AuditLog → String → QueueState → List Call → ℕ
count_decided audit_log id s [] = 0
count_decided audit_log id s (call ∷ calls) =
    decides audit_log id s call + count_decided audit_log id (on_call audit_log s call) calls

module _ (audit_log : AuditLog) where
  -- No later entry has the id.
  abbrev IsTaken : String → QueueState → Type 0
  IsTaken id s = (k : ℕ) → s.next_id ≤ k → entry_id k ≢ id

  -- Each id that is in the map, none of a later entry has.
  abbrev IsValid : QueueState → Type 0
  IsValid s = (id : String) (e : PendingResponse) → lookup id s.pending ≡ some e → IsTaken id s

  entry_id_inj : (n m : ℕ) → entry_id n ≡ entry_id m → n ≡ m
  entry_id_inj n m e = decimal_inj_behind "approval-" n m e

  lookup-decide :
      (action : Decision) (id j tenant_id user_id : String) (s : QueueState)
      (o : Option PendingResponse)
      → lookup id s.pending ≡ o
      → lookup j (decide audit_log action id tenant_id user_id o s).1.pending
        ≡ (if str_eq id j then none else lookup j s.pending)
  lookup-decide action id j tenant_id user_id s none absent = ground (arith, eq_iff id j)
  lookup-decide action id j tenant_id user_id s (some e) present = lookup-remove id j s.pending

  next_id-decide :
      (action : Decision) (id tenant_id user_id : String) (s : QueueState)
      (o : Option PendingResponse)
      → (decide audit_log action id tenant_id user_id o s).1.next_id ≡ s.next_id
  next_id-decide action id tenant_id user_id s none = refl
  next_id-decide action id tenant_id user_id s (some e) = refl

  IsTaken-other : (n k : ℕ) → suc n ≤ k → entry_id k ≢ entry_id n
  IsTaken-other n k h e = let same = entry_id_inj k n e in absurd (omega arith)

  enqueue-IsValid :
      (now : String) (response : NewResponse) (s : QueueState)
      → IsValid s
      → IsValid (enqueue audit_log now response s).1
  unfolding enqueue
  enqueue-IsValid now response s valid id e found k h =
      let written =
        lookup-insert (entry_id s.next_id) id
          (record { id = entry_id s.next_id; response = response; created_at = now }) s.pending in
      elim (Bool-cases (str_eq (entry_id s.next_id) id)) [
        | inl same ↦
            let is = (eq_iff (entry_id s.next_id) id).0 same in
            λ x. IsTaken-other s.next_id k h (x ∙ sym is)
        | inr other ↦ valid id e (rw other at (sym written ∙ found)) k (omega arith)
      ]

  decide-IsValid :
      (action : Decision) (id tenant_id user_id : String) (s : QueueState)
      → IsValid s
      → IsValid (decide audit_log action id tenant_id user_id (lookup id s.pending) s).1
  decide-IsValid action id tenant_id user_id s valid j e found k h =
      let left = lookup-decide action id j tenant_id user_id s (lookup id s.pending) refl in
      let kept = next_id-decide action id tenant_id user_id s (lookup id s.pending) in
      elim (Bool-cases (str_eq id j)) [
        | inl same ↦ let gone = rw same at (sym left ∙ found) in absurd (cc gone)
        | inr other ↦ valid j e (rw other at (sym left ∙ found)) k (rw kept at h)
      ]

  on_call-IsValid : (s : QueueState) (call : Call) → IsValid s → IsValid (on_call audit_log s call)
  unfolding on_call approve reject
  on_call-IsValid s (enqueuing now response) valid = enqueue-IsValid now response s valid
  on_call-IsValid s (approving id tenant_id user_id) valid =
      decide-IsValid approved id tenant_id user_id s valid
  on_call-IsValid s (rejecting id tenant_id user_id) valid =
      decide-IsValid rejected id tenant_id user_id s valid

  -- The entry is not in the map, and none of a later entry has its id.
  abbrev IsSpent : String → QueueState → Type 0
  IsSpent id s = (lookup id s.pending ≡ none) × IsTaken id s

  decide-IsSpent :
      (action : Decision) (id j tenant_id user_id : String) (s : QueueState)
      → IsSpent j s
      → IsSpent j (decide audit_log action id tenant_id user_id (lookup id s.pending) s).1
  decide-IsSpent action id j tenant_id user_id s (absent, taken) =
      let left = lookup-decide action id j tenant_id user_id s (lookup id s.pending) refl in
      let kept = next_id-decide action id tenant_id user_id s (lookup id s.pending) in
      (ground arith, λ k h. taken k (rw kept at h))

  on_call-IsSpent :
      (s : QueueState) (call : Call) (j : String)
      → IsSpent j s
      → IsSpent j (on_call audit_log s call)
  unfolding on_call approve reject enqueue
  on_call-IsSpent s (approving id tenant_id user_id) j spent =
      decide-IsSpent approved id j tenant_id user_id s spent
  on_call-IsSpent s (rejecting id tenant_id user_id) j spent =
      decide-IsSpent rejected id j tenant_id user_id s spent
  on_call-IsSpent s (enqueuing now response) j (absent, taken) =
      let written =
        lookup-insert (entry_id s.next_id) j
          (record { id = entry_id s.next_id; response = response; created_at = now }) s.pending in
      let other = taken s.next_id (omega arith) in
      (ground (arith, eq_iff (entry_id s.next_id) j), λ k h. taken k (omega arith))

  -- Only an entry that is in the map is decided.
  decides-absent :
      (s : QueueState) (call : Call) (j : String)
      → lookup j s.pending ≡ none
      → decides audit_log j s call ≡ 0
  unfolding decides approve reject
  decides-absent s (enqueuing now response) j absent = refl
  decides-absent s (approving id tenant_id user_id) j absent = ground (arith, eq_iff id j)
  decides-absent s (rejecting id tenant_id user_id) j absent = ground (arith, eq_iff id j)

  count_decided-IsSpent :
      (s : QueueState) (calls : List Call) (j : String)
      → IsSpent j s
      → count_decided audit_log j s calls ≡ 0
  unfolding count_decided
  count_decided-IsSpent s [] j spent = refl
  count_decided-IsSpent s (call ∷ calls) j spent =
      let ih =
        count_decided-IsSpent (on_call audit_log s call) calls j (on_call-IsSpent s call j spent) in
      omega (arith, ih, decides-absent s call j (spent.0))

  succeeded-cases : (r : Result ApprovalActionResult) → (succeeded r ≡ 0) ⊎ (succeeded r ≡ 1)
  succeeded-cases (ok a) = inr refl
  succeeded-cases (throw e) = inl refl

  -- A decision that succeeds removes the entry for good.
  decide-once :
      (action : Decision) (id j tenant_id user_id : String) (s : QueueState)
      → IsValid s
      → let r = decide audit_log action id tenant_id user_id (lookup id s.pending) s in
        str_eq id j ≡ true → (succeeded r.0 ≡ 0) ⊎ ((succeeded r.0 ≡ 1) × IsSpent j r.1)
  decide-once action id j tenant_id user_id s valid same =
      let is = (eq_iff id j).0 same in
      let r = decide audit_log action id tenant_id user_id (lookup id s.pending) s in
      let left = lookup-decide action id j tenant_id user_id s (lookup id s.pending) refl in
      let kept = next_id-decide action id tenant_id user_id s (lookup id s.pending) in
      elim (Option-cases (lookup id s.pending)) [
        | inl absent ↦ inl (rw absent refl)
        | inr (e, present) ↦ elim (succeeded-cases r.0) [
          | inl failed ↦ inl failed
          | inr done ↦
              inr (done, (rw same at left, λ k h. rw is at (valid id e present k (rw kept at h))))
        ]
      ]

  decides-cases :
      (s : QueueState) (call : Call) (j : String)
      → IsValid s
      → (decides audit_log j s call ≡ 0)
        ⊎ ((decides audit_log j s call ≡ 1) × IsSpent j (on_call audit_log s call))
  unfolding decides on_call approve reject
  decides-cases s (enqueuing now response) j valid = inl refl
  decides-cases s (approving id tenant_id user_id) j valid = elim (Bool-cases (str_eq id j)) [
    | inl same ↦ rw same (decide-once approved id j tenant_id user_id s valid same)
    | inr other ↦ inl (rw other refl)
  ]
  decides-cases s (rejecting id tenant_id user_id) j valid = elim (Bool-cases (str_eq id j)) [
    | inl same ↦ rw same (decide-once rejected id j tenant_id user_id s valid same)
    | inr other ↦ inl (rw other refl)
  ]

  count_decided-IsValid :
      (s : QueueState) (calls : List Call) (j : String)
      → IsValid s
      → count_decided audit_log j s calls ≤ 1
  unfolding count_decided
  count_decided-IsValid s [] j valid = omega arith
  count_decided-IsValid s (call ∷ calls) j valid = elim (decides-cases s call j valid) [
    | inl zero_ ↦
        let ih =
          count_decided-IsValid (on_call audit_log s call) calls j (on_call-IsValid s call valid) in
        omega (arith, ih, zero_)
    | inr (one, spent) ↦
        omega (arith, one, count_decided-IsSpent (on_call audit_log s call) calls j spent)
  ]

  -- Over any sequence of calls that starts with an empty queue, whatever the audit log answers, an
  -- id is approved or rejected with success at most once: no response is handed out for sending
  -- twice, and none is both approved and rejected.
  pub count_decided-new_queue :
      (calls : List Call) (id : String) → count_decided audit_log id new_queue calls ≤ 1
  count_decided-new_queue calls id =
      count_decided-IsValid new_queue calls id (unfold lookup in λ j e found. cc found)
