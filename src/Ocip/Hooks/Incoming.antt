-- ===== src/Ocip/Hooks/Incoming.antt =====
-- What the incoming hook guarantees, and what it leaves alone.
use openclaw_enterprise.Common.{
  String, Option, some, none, Bool, true, false, ◌≡◌, ◌≢◌, refl, arith, lookup, lookup-insert,
  eq_iff, Bool-cases, inl, inr, Option-cases,
}
use openclaw_enterprise.Shared.Types.{AgentIdentity}
use openclaw_enterprise.Shared.Errors.{cross_enterprise_blocked, Result, ok, throw}
use openclaw_enterprise.Ocip.Envelope.{OcipEnvelope}
use openclaw_enterprise.Ocip.Parser.{parse}
use openclaw_enterprise.Ocip.Counter.{ExchangeState, Exchanges, get_state}
use openclaw_enterprise.Ocip.CrossOrg.{
  AgentOrgInfo, CrossOrgCheckResult, enforce, enforce-cross_tenant,
}
use openclaw_enterprise.Ocip.Session.{GatewayMethods, OcipState, M, andthen, log_exchange}
use openclaw_enterprise.Ocip.Hooks.Receive.{
  incoming_id, first_incoming, track_incoming, receive, check_and_receive, incoming_of,
  handle_incoming,
}
use openclaw_enterprise.Ocip.Hooks.Rounds.{andthen-Keeps, bind-Keeps, log_exchange-Keeps}

abbrev pub source_of : OcipEnvelope → AgentOrgInfo
source_of e = record { tenant_id = e.source_agent.tenant_id; org_unit = e.source_agent.org_unit }

abbrev pub local_of : AgentIdentity → AgentOrgInfo
local_of local_agent = record { tenant_id = local_agent.tenant_id; org_unit = local_agent.org_unit }

module _ (gateway : GatewayMethods) (local_agent : AgentIdentity) (lower : String → String) where
  receive-exchanges :
      (envelope : OcipEnvelope) (checked : CrossOrgCheckResult) (s : OcipState)
      → let id = incoming_id s.context envelope in
        (receive gateway local_agent lower envelope checked s).1.exchanges
        ≡ track_incoming id envelope s.exchanges (get_state s.exchanges id)
  unfolding receive
  receive-exchanges envelope checked s = andthen-Keeps {A = Unit {0}} {B = Unit {0}} _ _ _ (λ a s'.
      bind-Keeps (log_exchange gateway _) _ (log_exchange-Keeps gateway _) (λ b s''. refl) s')

  lookup-track_incoming :
      (id j : String) (envelope : OcipEnvelope) (exchanges : Exchanges) (state : ExchangeState)
      → lookup j exchanges ≡ some state
      → lookup j (track_incoming id envelope exchanges (get_state exchanges id)) ≡ some state
  unfolding get_state
  lookup-track_incoming id j envelope exchanges state e =
      elim (Option-cases (lookup id exchanges)) [
        | inl absent ↦
            rw absent (
              ground
                (arith, lookup-insert id j (first_incoming id envelope) exchanges, eq_iff id j))
        | inr (old, present) ↦ rw present e
      ]

  -- The computation keeps the state of one exchange.
  abbrev KeepsAt : {A : Type 0} → String → ExchangeState → M A → Type 0
  KeepsAt j state m =
      (s : OcipState) → lookup j s.exchanges ≡ some state → lookup j (m s).1.exchanges ≡ some state

  andthen-KeepsAt :
      {A B : Type 0} (j : String) (state : ExchangeState) (r : Result A) (s : OcipState)
      (f : A → M B)
      → ((a : A) → KeepsAt j state (f a))
      → lookup j s.exchanges ≡ some state
      → lookup j (andthen r s f).1.exchanges ≡ some state
  andthen-KeepsAt j state (ok a) s f h e = h a s e
  andthen-KeepsAt j state (throw x) s f h e = e

  receive-KeepsAt :
      (j : String) (state : ExchangeState) (envelope : OcipEnvelope) (checked : CrossOrgCheckResult)
      → KeepsAt j state (receive gateway local_agent lower envelope checked)
  receive-KeepsAt j state envelope checked s e =
      rw (receive-exchanges envelope checked s)
        (lookup-track_incoming (incoming_id s.context envelope) j envelope s.exchanges state e)

  check_and_receive-KeepsAt :
      (j : String) (state : ExchangeState) (envelope : OcipEnvelope)
      → KeepsAt j state (check_and_receive gateway local_agent lower envelope)
  unfolding check_and_receive
  check_and_receive-KeepsAt j state envelope s =
      andthen-KeepsAt {B = Unit {0}} j state (enforce gateway.policy_evaluate _ _ _) s _
        (λ checked s' e. elim (Bool-cases checked.allowed) [
          | inl yes_ ↦ rw yes_ (receive-KeepsAt j state envelope checked s' e)
          | inr no_ ↦ rw no_ (rw (log_exchange-Keeps gateway _ s') e)
        ])

  incoming_of-KeepsAt :
      (j : String) (state : ExchangeState) (b : Bool) (o : Option OcipEnvelope)
      → KeepsAt j state (incoming_of gateway local_agent lower b o)
  incoming_of-KeepsAt j state true (some envelope) = check_and_receive-KeepsAt j state envelope
  incoming_of-KeepsAt j state true none = λ s e. e
  incoming_of-KeepsAt j state false o = λ s e. e

  -- No incoming message changes an exchange that is already tracked: neither its round, nor its
  -- limit, nor its transcript.
  pub handle_incoming-tracked :
      (s : OcipState) (j : String) (state : ExchangeState)
      → lookup j s.exchanges ≡ some state
      → lookup j (handle_incoming gateway local_agent lower s).1.exchanges ≡ some state
  unfolding handle_incoming
  handle_incoming-tracked s j state =
      let r = parse s.context.message.fields in incoming_of-KeepsAt j state r.is_ocip r.envelope s

  -- A message whose envelope names another tenant is refused and leaves no trace: no exchange is
  -- tracked, nothing is logged, nothing is written to the message.
  pub handle_incoming-cross_tenant :
      (s : OcipState) (e : OcipEnvelope)
      → parse s.context.message.fields
        ≡ record { is_ocip = true; envelope = some e; parse_error = none }
      → e.source_agent.tenant_id ≢ local_agent.tenant_id
      → handle_incoming gateway local_agent lower s
        ≡ (throw (cross_enterprise_blocked e.source_agent.tenant_id local_agent.tenant_id), s)
  unfolding handle_incoming check_and_receive
  handle_incoming-cross_tenant s e parsed other = rw parsed (
      rw
        (enforce-cross_tenant gateway.policy_evaluate (source_of e) (local_of local_agent)
          s.context.user_id other)
        refl)
