-- ===== src/Ocip/Hooks/Audited.antt =====
-- plugins/ocip-protocol/src/hooks.ts: the audit of an incoming message.
use openclaw_enterprise.Common.{
  String, [], ◌∷◌, ◌++◌, true, some, none, ◌≡◌, ◌⊎◌, refl, inl, inr, Bool-cases,
}
use openclaw_enterprise.Shared.Types.{
  AgentIdentity, ExchangeOutcome, in_progress, AuditOutcome, success,
}
use openclaw_enterprise.Shared.Errors.{EnterpriseError, Result, ok, throw}
use openclaw_enterprise.Ocip.Envelope.{OcipEnvelope}
use openclaw_enterprise.Ocip.Parser.{parse}
use openclaw_enterprise.Ocip.CrossOrg.{CrossOrgCheckResult, enforce}
use openclaw_enterprise.Ocip.Logger.{ExchangeAudit, exchange_record}
use openclaw_enterprise.Ocip.Session.{
  GatewayMethods, SessionsSendContext, OcipState, write_audit, log_exchange,
}
use openclaw_enterprise.Ocip.Hooks.{content_of}
use openclaw_enterprise.Ocip.Hooks.Receive.{
  incoming_id, incoming_log, commitment_gate, receive, check_and_receive, handle_incoming,
}
use openclaw_enterprise.Ocip.Hooks.Incoming.{source_of, local_of}

Result-cases :
    {A : Type 0} (x : Result A) → ((a : A) × (x ≡ ok a)) ⊎ ((e : EnterpriseError) × (x ≡ throw e))
Result-cases (ok a) = inl (a, refl)
Result-cases (throw e) = inr (e, refl)

module _ (gateway : GatewayMethods) (local_agent : AgentIdentity) (lower : String → String) where
  -- The message was let through and marked, or denied and left as it was; either is in the record.
  abbrev pub IsMarked :
      SessionsSendContext → OcipEnvelope → ExchangeAudit → SessionsSendContext → Type 0
  IsMarked c e entry c' =
      ((c'.ocip ≡ some e) × (entry.entry.outcome ≡ success))
      ⊎ ((c' ≡ c) × (entry.entry.outcome ≡ AuditOutcome.denied))

  -- The hook succeeds, with one record more that the audit log took.
  abbrev pub IsLogged : OcipState → OcipEnvelope → Result (Unit {0}) × OcipState → Type 0
  IsLogged s e r =
      (r.0 ≡ ok tt)
      × ((entry : ExchangeAudit) × (id : String) × (r.1.log ≡ s.log ++ entry ∷ [])
          × (gateway.audit_log entry ≡ ok id)
          × (entry.entry.tenant_id ≡ s.context.tenant_id)
          × (entry.entry.user_id ≡ s.context.user_id)
          × IsMarked s.context e entry r.1.context)

  -- The hook throws and leaves the message as it was: before a record, or as the audit log threw.
  abbrev pub IsRefused : OcipState → Result (Unit {0}) × OcipState → Type 0
  IsRefused s r =
      (x : EnterpriseError) × (r.0 ≡ throw x)
      × (r.1.context ≡ s.context)
      × ((r.1.log ≡ s.log)
          ⊎ ((entry : ExchangeAudit) × (r.1.log ≡ s.log ++ entry ∷ [])
              × (gateway.audit_log entry ≡ throw x)))

  abbrev pub IsAudited : OcipState → OcipEnvelope → Result (Unit {0}) × OcipState → Type 0
  IsAudited s e r = IsLogged s e r ⊎ IsRefused s r

  receive-IsAudited :
      (e : OcipEnvelope) (checked : CrossOrgCheckResult) (s : OcipState)
      → IsAudited s e (receive gateway local_agent lower e checked s)
  unfolding receive log_exchange write_audit exchange_record
  receive-IsAudited e checked s =
      let id = incoming_id s.context e in
      let params = incoming_log local_agent s.context id e checked in_progress none in
      elim (Result-cases (commitment_gate lower id e (content_of s.context))) [
        | inr (x, refused) ↦ rw refused (inr (x, refl, refl, inl refl))
        | inl (a, passed) ↦
            rw passed (elim (Result-cases (gateway.audit_log (exchange_record params))) [
              | inl (i, logged) ↦ rw logged (
                  inl
                    (refl, (exchange_record params, i, refl, logged, refl, refl, inl (refl, refl))))
              | inr (x, broken) ↦
                  rw broken (inr (x, refl, refl, inr (exchange_record params, refl, broken)))
            ])
      ]

  check_and_receive-IsAudited :
      (e : OcipEnvelope) (s : OcipState)
      → IsAudited s e (check_and_receive gateway local_agent lower e s)
  unfolding check_and_receive log_exchange write_audit exchange_record
  check_and_receive-IsAudited e s =
      let id = incoming_id s.context e in
      elim (Result-cases
        (enforce gateway.policy_evaluate (source_of e) (local_of local_agent) s.context.user_id)) [
          | inr (x, blocked) ↦ rw blocked (inr (x, refl, refl, inl refl))
          | inl (checked, allowed_) ↦ rw allowed_ (elim (Bool-cases checked.allowed) [
            | inl yes_ ↦ rw yes_ (receive-IsAudited e checked s)
            | inr no_ ↦
                let params =
                  incoming_log local_agent s.context id e checked ExchangeOutcome.denied
                    (some checked.reason) in
                rw no_ (elim (Result-cases (gateway.audit_log (exchange_record params))) [
                  | inl (i, logged) ↦ rw logged (
                      inl (
                        refl,
                        (exchange_record params, i, refl, logged, refl, refl, inr (refl, refl)),
                      ))
                  | inr (x, broken) ↦
                      rw broken (inr (x, refl, refl, inr (exchange_record params, refl, broken)))
                ])
          ])
        ]

  -- An incoming message with an envelope either leaves one record more, which the audit log took, in the
  -- name of the context's tenant and user: of a success where the envelope is attached to the context,
  -- of a denial where the context stays as it was. Or the hook throws and the context stays as it was;
  -- then nothing was logged before, or what is thrown is what the audit log threw.
  pub handle_incoming-IsAudited :
      (s : OcipState) (e : OcipEnvelope)
      → parse s.context.message.fields
        ≡ record { is_ocip = true; envelope = some e; parse_error = none }
      → IsAudited s e (handle_incoming gateway local_agent lower s)
  unfolding handle_incoming
  handle_incoming-IsAudited s e parsed = rw parsed (check_and_receive-IsAudited e s)
