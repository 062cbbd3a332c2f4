-- ===== src/WorkTracking/Updater/Permitted.antt =====
-- plugins/work-tracking/src/updater/updater.ts: no ticket is moved against the policy.
use openclaw_enterprise.Common.{
  String, List, [], ◌∷◌, ◌++◌, true, false, Option, none, some, get_or, All, All-append, Bool-cases,
  inl, inr, ◌≡◌, refl, sym,
}
use mathlib.Core.Path.{subst}
use openclaw_enterprise.Shared.Errors.{Result, ok, throw}
use openclaw_enterprise.Shared.Policy.{PolicyEvaluateResponse}
use openclaw_enterprise.Connector.{ConnectorWriteResult}
use openclaw_enterprise.WorkTracking.Updater.{
  PrMergeDetails, Transition, TicketUpdateResult, Call, comment, transition, TicketUpdater,
  build_merge_comment, is_denied, is_allowed, transition_request, with_decision, with_target,
  with_comment, update_ticket_for_merge, and_then, update_tickets_for_merge,
}

module _ (u : TicketUpdater) (details : PrMergeDetails) (target : Option Transition) where
  -- A comment is free. A ticket is moved where it was to be moved so, its comment was made, the policy
  -- engine did not answer with `deny`, and its list of transitions is empty or has this one.
  pub data IsPermitted : Call → Type 0 where
    said : {key body : String} → IsPermitted (comment key body)
    may_move :
        {key : String} {t : Transition} (c : ConnectorWriteResult) (answer : PolicyEvaluateResponse)
        → target ≡ some t
        → u.jira_comment key (build_merge_comment details) ≡ ok c
        → c.is_success ≡ true
        → u.policy_evaluate (transition_request u key t.name) ≡ ok answer
        → is_denied answer.decision ≡ false
        → is_allowed (get_or answer.constraints.allowed_transitions []) t.name ≡ true
        → IsPermitted (transition key t)

  with_decision-IsPermitted :
      (key : String) (t : Transition) (c : ConnectorWriteResult)
      (answer : Result PolicyEvaluateResponse) (calls : List Call)
      → target ≡ some t
      → u.jira_comment key (build_merge_comment details) ≡ ok c
      → c.is_success ≡ true
      → u.policy_evaluate (transition_request u key t.name) ≡ answer
      → All IsPermitted calls
      → All IsPermitted (with_decision u key t c answer calls).1
  unfolding with_decision
  with_decision-IsPermitted key t c (throw e) calls is made success asked h = h
  with_decision-IsPermitted key t c (ok answer) calls is made success asked h =
      elim (Bool-cases (is_denied answer.decision)) [
        | inl denied ↦ rw denied h
        | inr not_denied ↦
            elim (Bool-cases
              (is_allowed (get_or answer.constraints.allowed_transitions []) t.name)) [
                | inr other ↦ rw not_denied (rw other h)
                | inl allowed ↦ rw not_denied (
                    rw allowed (
                      All-append IsPermitted calls (transition key t ∷ []) h
                        (may_move c answer is made success asked not_denied allowed, tt)))
              ]
      ]

  with_target-IsPermitted :
      (key : String) (c : ConnectorWriteResult) (calls : List Call) (o : Option Transition)
      → target ≡ o
      → u.jira_comment key (build_merge_comment details) ≡ ok c
      → c.is_success ≡ true
      → All IsPermitted calls
      → All IsPermitted (with_target u key o c calls).1
  unfolding with_target
  with_target-IsPermitted key c calls none is made success h = h
  with_target-IsPermitted key c calls (some t) is made success h =
      with_decision-IsPermitted key t c (u.policy_evaluate (transition_request u key t.name)) calls
        is made success refl h

  with_comment-IsPermitted :
      (key : String) (made : Result ConnectorWriteResult) (calls : List Call)
      → u.jira_comment key (build_merge_comment details) ≡ made
      → All IsPermitted calls
      → All IsPermitted (with_comment u key target made calls).1
  unfolding with_comment
  with_comment-IsPermitted key (throw e) calls is h = h
  with_comment-IsPermitted key (ok c) calls is h = elim (Bool-cases c.is_success) [
    | inr failed ↦ simp (failed) h
    | inl success ↦
        let rest = with_target u key target c calls in
        let same : with_comment u key target (ok c) calls ≡ rest = simp (success) refl in
        subst (λ (x : Result TicketUpdateResult × List Call). All IsPermitted x.1) (sym same)
          (with_target-IsPermitted key c calls target refl is success h)
  ]

  update_ticket_for_merge-IsPermitted :
      (key : String) (calls : List Call)
      → All IsPermitted calls
      → All IsPermitted (update_ticket_for_merge u key details target calls).1
  unfolding update_ticket_for_merge
  update_ticket_for_merge-IsPermitted key calls h =
      with_comment-IsPermitted key (u.jira_comment key (build_merge_comment details))
        (calls ++ comment key (build_merge_comment details) ∷ []) refl
        (All-append IsPermitted calls (comment key (build_merge_comment details) ∷ []) h (said, tt))

  and_then-IsPermitted :
      (r : Result TicketUpdateResult) (rest : Result (List TicketUpdateResult) × List Call)
      (calls : List Call)
      → All IsPermitted calls
      → All IsPermitted rest.1
      → All IsPermitted (and_then u r rest calls).1
  and_then-IsPermitted (throw e) rest calls h k = h
  and_then-IsPermitted (ok r) (throw e, calls') calls h k = k
  and_then-IsPermitted (ok r) (ok rs, calls') calls h k = k

  -- Of all calls that a merged pull request makes of Jira, for any list of tickets and whatever Jira
  -- and the policy engine answer, each that moves a ticket is permitted: its comment was made, the
  -- answer is another decision than `deny`, and the transitions that it lists, if any, have this one.
  pub update_tickets_for_merge-IsPermitted :
      (keys : List String) (calls : List Call)
      → All IsPermitted calls
      → All IsPermitted (update_tickets_for_merge u keys details target calls).1
  unfolding update_tickets_for_merge
  update_tickets_for_merge-IsPermitted [] calls h = h
  update_tickets_for_merge-IsPermitted (key ∷ keys) calls h =
      let first = update_ticket_for_merge-IsPermitted key calls h in
      let (result, calls1) = update_ticket_for_merge u key details target calls in
      and_then-IsPermitted result (update_tickets_for_merge u keys details target calls1) calls1
        first (update_tickets_for_merge-IsPermitted keys calls1 first)
