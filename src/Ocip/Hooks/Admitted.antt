-- ===== src/Ocip/Hooks/Admitted.antt =====
-- Which messages the incoming hook admits: those whose envelope it attaches to the context.
use openclaw_enterprise.Common.{
  String, Option, some, none, Bool, true, false, ◌≡◌, ◌⊎◌, refl, sym, ◌∙◌, ap, arith, Bool-cases,
  inl, inr,
}
use mathlib.Core.Path.{subst}
use openclaw_enterprise.Shared.Types.{AgentIdentity, allow, in_progress}
use openclaw_enterprise.Shared.Errors.{Result, ok, throw}
use openclaw_enterprise.Shared.Policy.{PolicyEvaluateResponse}
use openclaw_enterprise.Ocip.Envelope.{OcipEnvelope}
use openclaw_enterprise.Ocip.Parser.{parse}
use openclaw_enterprise.Ocip.Counter.{get_state}
use openclaw_enterprise.Ocip.CrossOrg.{
  cross_org_request, CrossOrgCheckResult, enforce, enforce-allowed,
}
use openclaw_enterprise.Ocip.Commitment.{detect, enforce_commitment_policy}
use openclaw_enterprise.Ocip.Logger.{ExchangeLogParams}
use openclaw_enterprise.Ocip.Session.{
  write_audit, GatewayMethods, OcipState, M, andthen, ◌>>=◌, log_exchange, set_ocip,
}
use openclaw_enterprise.Ocip.Hooks.{content_of}
use openclaw_enterprise.Ocip.Hooks.Receive.{
  commitment_gate, incoming_log, track_incoming, receive, check_and_receive, incoming_of,
  handle_incoming, incoming_id,
}
use openclaw_enterprise.Ocip.Hooks.Incoming.{source_of, local_of}

andthen-ok :
    {A B : Type 0} (r : Result A) (s s' : OcipState) (f : A → M B) (b : B)
    → andthen r s f ≡ (ok b, s')
    → (a : A) × (r ≡ ok a) × (f a s ≡ (ok b, s'))
andthen-ok (ok a) s s' f b h = (a, refl, h)
andthen-ok (throw x) s s' f b h = cc

module _ (gateway : GatewayMethods) (local_agent : AgentIdentity) (lower : String → String) where
  -- What the hook has checked of a message whose envelope it attaches to the context.
  pub record IsAdmitted (s : OcipState) (e : OcipEnvelope) : Type 0 where
    pub is_parsed : (parse s.context.message.fields).envelope ≡ some e
    pub same_tenant : e.source_agent.tenant_id ≡ local_agent.tenant_id
    pub governed :
        (e.source_agent.org_unit ≡ local_agent.org_unit)
        ⊎ ((response : PolicyEvaluateResponse) × (gateway.policy_evaluate
                (cross_org_request (source_of e) (local_of local_agent) s.context.user_id)
              ≡ ok response)
            × (response.decision ≡ allow))
    pub no_commitment : (detect lower e (content_of s.context)).requires_human ≡ false

  commitment_gate-ok :
      (e : OcipEnvelope) (id content : String)
      → commitment_gate lower id e content ≡ ok tt
      → (detect lower e content).requires_human ≡ false
  unfolding commitment_gate enforce_commitment_policy
  commitment_gate-ok e id content h = elim (Bool-cases (detect lower e content).requires_human) [
    | inl human ↦ let h' = rw human at h in cc
    | inr free ↦ free
  ]

  none-ne-some : {x : OcipEnvelope} → ◌≡◌ {A = Option OcipEnvelope} none (some x) → ⊥
  none-ne-some h = cc

  receive-no_commitment :
      (e : OcipEnvelope) (checked : CrossOrgCheckResult) (s s' : OcipState)
      → receive gateway local_agent lower e checked s ≡ (ok tt, s')
      → (detect lower e (content_of s.context)).requires_human ≡ false
  unfolding receive
  receive-no_commitment e checked s s' h =
      let gate = commitment_gate lower (incoming_id s.context e) e (content_of s.context) in
      let (a, passed, rest) = andthen-ok {B = Unit {0}} gate _ s' _ tt h in
      commitment_gate-ok e (incoming_id s.context e) (content_of s.context) passed

  -- Where the computation succeeds, the context holds the envelope.
  abbrev Sets : OcipEnvelope → M (Unit {0}) → Type 0
  Sets e m = (s s' : OcipState) → m s ≡ (ok tt, s') → s'.context.ocip ≡ some e

  andthen-Sets :
      {A : Type 0} (r : Result A) (s : OcipState) (f : A → M (Unit {0})) (e : OcipEnvelope)
      → ((a : A) → Sets e (f a))
      → (s' : OcipState) → andthen r s f ≡ (ok tt, s')
      → s'.context.ocip ≡ some e
  andthen-Sets (ok a) s f e h s' x = h a s s' x
  andthen-Sets (throw x) s f e h s' y = cc

  set_ocip-Sets : (e : OcipEnvelope) → Sets e (set_ocip e)
  set_ocip-Sets e s s' h = ground arith

  receive-Sets :
      (e : OcipEnvelope) (checked : CrossOrgCheckResult)
      → Sets e (receive gateway local_agent lower e checked)
  unfolding receive
  receive-Sets e checked s =
      let id = incoming_id s.context e in
      let note =
        log_exchange gateway (incoming_log local_agent s.context id e checked in_progress none) in
      andthen-Sets (commitment_gate lower id e (content_of s.context))
        (record s { exchanges = track_incoming id e s.exchanges (get_state s.exchanges id) })
        (λ a. note >>= λ b. set_ocip e) e
        (λ a t. andthen-Sets (note t).0 (note t).1 (λ b. set_ocip e) e (λ b. set_ocip-Sets e))

  -- Where it succeeds without touching what the context holds.
  log_exchange-ocip :
      (params : ExchangeLogParams) (s s' : OcipState)
      → log_exchange gateway params s ≡ (ok tt, s')
      → s'.context ≡ s.context
  unfolding log_exchange write_audit
  log_exchange-ocip params s s' h = ground arith

  check_and_receive-IsAdmitted :
      (a e : OcipEnvelope) (s s' : OcipState)
      → (parse s.context.message.fields).envelope ≡ some a
      → s.context.ocip ≡ none
      → check_and_receive gateway local_agent lower a s ≡ (ok tt, s')
      → s'.context.ocip ≡ some e
      → IsAdmitted s e
  unfolding check_and_receive
  check_and_receive-IsAdmitted a e s s' is_parsed fresh h held =
      let (checked, enforced, rest) =
        andthen-ok {B = Unit {0}}
          (enforce gateway.policy_evaluate (source_of a) (local_of local_agent) s.context.user_id) s
          s' _ tt h in
      elim (Bool-cases checked.allowed) [
        | inl allowed ↦
            let received = rw allowed at rest in
            let sets : some a ≡ some e = sym (receive-Sets a checked s s' received) ∙ held in
            let (same_tenant, governed) =
              enforce-allowed gateway.policy_evaluate (source_of a) (local_of local_agent)
                s.context.user_id checked enforced allowed in
            let same : a ≡ e = cc sets in
            subst (IsAdmitted s) same (record {
              is_parsed = is_parsed;
              same_tenant = same_tenant;
              governed = governed;
              no_commitment = receive-no_commitment a checked s s' received;
            })
        | inr denied ↦
            let logged = rw denied at rest in
            let kept = log_exchange-ocip _ s s' logged in
            absurd (none-ne-some (sym fresh ∙ (ap (λ c. c.ocip) (sym kept) ∙ held)))
      ]

  incoming_of-IsAdmitted :
      (b : Bool) (o : Option OcipEnvelope) (e : OcipEnvelope) (s s' : OcipState)
      → (parse s.context.message.fields).envelope ≡ o
      → s.context.ocip ≡ none
      → incoming_of gateway local_agent lower b o s ≡ (ok tt, s')
      → s'.context.ocip ≡ some e
      → IsAdmitted s e
  incoming_of-IsAdmitted true (some a) e s s' p fresh h held =
      check_and_receive-IsAdmitted a e s s' p fresh h held
  incoming_of-IsAdmitted true none e s s' p fresh h held =
      absurd (none-ne-some (sym fresh ∙ (ap (λ r. r.1.context.ocip) h ∙ held)))
  incoming_of-IsAdmitted false o e s s' p fresh h held =
      absurd (none-ne-some (sym fresh ∙ (ap (λ r. r.1.context.ocip) h ∙ held)))

  -- Where the hook succeeds on a context that holds no envelope yet and attaches one, that envelope
  -- is the one parsed from the message, it comes from the agent's own tenant, its unit is the
  -- agent's own or the policy engine allowed the exchange, and it needs no human for a commitment.
  pub handle_incoming-IsAdmitted :
      (s s' : OcipState) (e : OcipEnvelope)
      → s.context.ocip ≡ none
      → handle_incoming gateway local_agent lower s ≡ (ok tt, s')
      → s'.context.ocip ≡ some e
      → IsAdmitted s e
  unfolding handle_incoming
  handle_incoming-IsAdmitted s s' e =
      let r = parse s.context.message.fields in
      incoming_of-IsAdmitted r.is_ocip r.envelope e s s' refl
