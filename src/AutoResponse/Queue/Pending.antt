-- ===== src/AutoResponse/Queue/Pending.antt =====
-- The list of a user's pending responses and their count.
use openclaw_enterprise.Common.{
  ℕ, suc, String, List, [], ◌∷◌, Bool-cases, inl, inr, ◌≡◌, refl, ◌∙◌, ap, arith, length, str_eq,
}
use openclaw_enterprise.AutoResponse.Queue.{
  PendingResponse, QueueState, place, latest_first, entries_of, list_pending, count_entries,
  pending_count,
}

length-place :
    (time : String → ℕ) (e : PendingResponse) (es : List PendingResponse)
    → length (place time e es) ≡ suc (length es)
length-place time e [] = refl
length-place time e (d ∷ ds) = ground (arith, length-place time e ds)

length-latest_first :
    (time : String → ℕ) (es : List PendingResponse) → length (latest_first time es) ≡ length es
length-latest_first time [] = refl
length-latest_first time (e ∷ es) =
    length-place time e (latest_first time es) ∙ ap suc (length-latest_first time es)

length-entries_of :
    (user_id : String) (entries : List (String × PendingResponse))
    → length (entries_of user_id entries) ≡ count_entries user_id entries
unfolding count_entries
length-entries_of user_id [] = refl
length-entries_of user_id ((k, e) ∷ entries) =
    let ih = length-entries_of user_id entries in
    elim (Bool-cases (str_eq e.response.user_id user_id)) [
      | inl same ↦ rw same (omega (arith, ih))
      | inr other ↦ rw other ih
    ]

-- The count of a user's pending responses is the number that the list for the user holds.
pub length-list_pending :
    (time : String → ℕ) (user_id : String) (s : QueueState)
    → length (list_pending time user_id s) ≡ pending_count user_id s
unfolding list_pending pending_count
length-list_pending time user_id s =
    length-latest_first time (entries_of user_id s.pending) ∙ length-entries_of user_id s.pending
