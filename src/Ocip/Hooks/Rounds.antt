-- ===== src/Ocip/Hooks/Rounds.antt =====
-- However many messages the hooks see, an exchange lets through no more than its limit allows.
use openclaw_enterprise.Common.{String, List, [], ◌∷◌, ◌≡◌, ◌≢◌, refl, ◌∙◌, Bool-cases, inl, inr}
use openclaw_enterprise.Shared.Types.{AgentIdentity}
use openclaw_enterprise.Shared.Errors.{EnterpriseError, Result, ok, throw}
use openclaw_enterprise.Ocip.Counter.{ExchangeState, Exchanges, EscalationPayload, build_escalation}
use openclaw_enterprise.Ocip.Logger.{ExchangeAudit, ExchangeLogParams}
use openclaw_enterprise.Ocip.Filter.{WithheldRecord}
use openclaw_enterprise.Ocip.Session.{
  GatewayMethods, OcipState, M, andthen, ◌>>=◌, write_audit, log_exchange, log_data_withheld, raise,
}
use openclaw_enterprise.Ocip.Hooks.{
  exchange_id_of, count_outgoing, is_round_limit, state_in_map, caught, escalate, send, sent,
  handle_outgoing,
}

-- The computation leaves the counter's map alone.
abbrev pub Keeps : {A : Type 0} → M A → Type 0
Keeps m = (s : OcipState) → (m s).1.exchanges ≡ s.exchanges

pub andthen-Keeps :
    {A B : Type 0} (r : Result A) (s : OcipState) (f : A → M B)
    → ((a : A) → Keeps (f a))
    → (andthen r s f).1.exchanges ≡ s.exchanges
andthen-Keeps (ok a) s f h = h a s
andthen-Keeps (throw e) s f h = refl

pub bind-Keeps :
    {A B : Type 0} (m : M A) (f : A → M B) → Keeps m → ((a : A) → Keeps (f a)) → Keeps (m >>= f)
bind-Keeps m f h k s = andthen-Keeps (m s).0 (m s).1 f k ∙ h s

write_audit-Keeps :
    (gateway : GatewayMethods) (entry : ExchangeAudit) → Keeps (write_audit gateway entry)
unfolding write_audit
write_audit-Keeps gateway entry s = refl

pub log_exchange-Keeps :
    (gateway : GatewayMethods) (params : ExchangeLogParams) → Keeps (log_exchange gateway params)
unfolding log_exchange
log_exchange-Keeps gateway params s = refl

log_data_withheld-Keeps :
    (gateway : GatewayMethods) (t u i : String) (ws : List WithheldRecord) (p : String)
    → Keeps (log_data_withheld gateway t u i ws p)
log_data_withheld-Keeps gateway t u i [] p s = refl
log_data_withheld-Keeps gateway t u i (w ∷ ws) p s = write_audit-Keeps gateway _ s

module _ (gateway : GatewayMethods) (local_agent : AgentIdentity) where
  escalate-Keeps :
      (error : EnterpriseError) (escalation : EscalationPayload) (state : ExchangeState)
      → Keeps (escalate gateway local_agent error escalation state)
  unfolding escalate
  escalate-Keeps error escalation state s =
      bind-Keeps (log_exchange gateway _) _ (log_exchange-Keeps gateway _) (λ a s'. refl) _

  caught-Keeps : (error : EnterpriseError) → Keeps (caught gateway local_agent error)
  unfolding caught
  caught-Keeps error s = elim (Bool-cases (is_round_limit error)) [
    | inl e ↦ rw e (
        andthen-Keeps (build_escalation s.exchanges (exchange_id_of s.context)) s _
          (λ escalation. escalate-Keeps error escalation (state_in_map s)))
    | inr e ↦ rw e refl
  ]

  send-Keeps :
      (tomorrow : String) (state : ExchangeState) → Keeps (send gateway local_agent tomorrow state)
  unfolding send
  send-Keeps tomorrow state s =
      bind-Keeps (log_data_withheld gateway _ _ _ _ _) _ (log_data_withheld-Keeps gateway _ _ _ _ _)
        (λ a s'. log_exchange-Keeps gateway _ _) s

  sent-exchanges :
      (tomorrow : String) (r : Result ExchangeState × Exchanges) (s : OcipState)
      → (sent gateway local_agent tomorrow r s).1.exchanges ≡ r.1
  unfolding sent
  sent-exchanges tomorrow (ok state, exchanges) s =
      send-Keeps tomorrow state (record s { exchanges = exchanges })
  sent-exchanges tomorrow (throw error, exchanges) s =
      caught-Keeps error (record s { exchanges = exchanges })

  -- Whatever the outgoing hook does later, the map is the one that the counter left.
  pub handle_outgoing-exchanges :
      (tomorrow : String) (s : OcipState)
      → (handle_outgoing gateway local_agent tomorrow s).1.exchanges
        ≡ (count_outgoing local_agent s.context s.exchanges).1
  unfolding handle_outgoing
  handle_outgoing-exchanges tomorrow s = sent-exchanges tomorrow _ s

  andthen-throws :
      {A B : Type 0} (r : Result A) (s : OcipState) (f : A → M B)
      → ((a : A) (s' : OcipState) (b : B) → (f a s').0 ≢ ok b)
      → (b : B) → (andthen r s f).0 ≢ ok b
  andthen-throws (ok a) s f h b = h a s b
  andthen-throws (throw e) s f h b = λ e. cc

  raise-throws :
      (error : EnterpriseError) (s : OcipState) (b : Unit {0})
      → (raise {A = Unit {0}} error s).0 ≢ ok b
  raise-throws error s b e = cc

  escalate-throws :
      (error : EnterpriseError) (escalation : EscalationPayload) (state : ExchangeState)
      (s : OcipState) (b : Unit {0})
      → (escalate gateway local_agent error escalation state s).0 ≢ ok b
  unfolding escalate
  escalate-throws error escalation state s b =
      andthen-throws {A = Unit {0}} _ _ _ (λ a s'. raise-throws error s') b

  caught-throws :
      (error : EnterpriseError) (s : OcipState) (b : Unit {0})
      → (caught gateway local_agent error s).0 ≢ ok b
  unfolding caught
  caught-throws error s b = elim (Bool-cases (is_round_limit error)) [
    | inl e ↦ rw e (
        andthen-throws (build_escalation s.exchanges (exchange_id_of s.context)) s _
          (λ escalation s'. escalate-throws error escalation (state_in_map s) s') b)
    | inr e ↦ rw e (λ x. cc)
  ]

  sent-ok :
      (tomorrow : String) (r : Result ExchangeState × Exchanges) (s : OcipState)
      → (sent gateway local_agent tomorrow r s).0 ≡ ok tt
      → (state : ExchangeState) × (r.0 ≡ ok state)
  unfolding sent
  sent-ok tomorrow (ok state, exchanges) s h = (state, refl)
  sent-ok tomorrow (throw error, exchanges) s h =
      absurd (caught-throws error (record s { exchanges = exchanges }) tt h)

  -- A message that the hook lets out was let through by the counter.
  pub handle_outgoing-ok :
      (tomorrow : String) (s : OcipState)
      → (handle_outgoing gateway local_agent tomorrow s).0 ≡ ok tt
      → (state : ExchangeState) × ((count_outgoing local_agent s.context s.exchanges).0 ≡ ok state)
  unfolding handle_outgoing
  handle_outgoing-ok tomorrow s =
      sent-ok tomorrow (count_outgoing local_agent s.context s.exchanges) s
