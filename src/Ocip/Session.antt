-- ===== src/Ocip/Session.antt =====
-- plugins/ocip-protocol/src/hooks.ts: the state that the hooks on `sessions_send` work on, and what they
-- do on it. The state is the counter's map, the records passed to `audit.log` in order, and the
-- message that the hooks read and write; a handler returns its result with the state, also where it
-- throws. The gateway is a parameter.
use openclaw_enterprise.Common.{ℤ, String, List, [], ◌∷◌, ◌++◌, Option, some}
use openclaw_enterprise.Shared.Types.{DataClassificationLevel, ExchangeType}
use openclaw_enterprise.Shared.Json.{Fields}
use openclaw_enterprise.Shared.Errors.{EnterpriseError, Result, ok, throw}
use openclaw_enterprise.Shared.Policy.{PolicyEvaluateRequest, PolicyEvaluateResponse}
use openclaw_enterprise.Ocip.Envelope.{OcipEnvelope}
use openclaw_enterprise.Ocip.Counter.{Exchanges, EscalationPayload}
use openclaw_enterprise.Ocip.Filter.{ClassifiableDataItem, WithheldRecord}
use openclaw_enterprise.Ocip.Logger.{
  ExchangeLogParams, ExchangeAudit, exchange_record, withheld_record,
}

-- `audit.log` returns the entry's id or throws.
pub record GatewayMethods : Type 0 where
  pub policy_evaluate : PolicyEvaluateRequest → Result PolicyEvaluateResponse
  pub audit_log : ExchangeAudit → Result String

-- A message. `fields` is the untyped part that the parser reads; the other entries are those that
-- the source reads by a cast, at the type of the cast. The last three are written by the hooks.
pub record Message : Type 0 where
  pub fields : Fields
  pub exchange_type : Option ExchangeType
  pub exchange_id : Option String
  pub classification : Option DataClassificationLevel
  pub max_rounds : Option ℤ
  pub content : Option String
  pub target_agent_id : Option String
  pub target_user_id : Option String
  pub receiver_can_share : Option (List DataClassificationLevel)
  pub ocip_escalation : Option EscalationPayload
  pub filtered_data : Option (List ClassifiableDataItem)

pub record SessionsSendContext : Type 0 where
  pub message : Message
  pub ocip : Option OcipEnvelope
  pub session_id : String
  pub tenant_id : String
  pub user_id : String
  pub data_items : Option (List ClassifiableDataItem)

pub record OcipState : Type 0 where
  pub exchanges : Exchanges
  pub log : List ExchangeAudit
  pub context : SessionsSendContext

abbrev pub M : Type 0 → Type 0
M A = OcipState → Result A × OcipState

abbrev pub andthen : {A B : Type 0} → Result A → OcipState → (A → M B) → Result B × OcipState
andthen (ok a) s f = f a s
andthen (throw e) s f = (throw e, s)

infixl 5 ◌>>=◌ ◌>>◌
abbrev pub ◌>>=◌ : {A B : Type 0} → M A → (A → M B) → M B
◌>>=◌ m f s = let r = m s in andthen r.0 r.1 f

abbrev pub ◌>>◌ : {B : Type 0} → M (Unit {0}) → M B → M B
m >> k = m >>= λ _. k

abbrev pub return : {A : Type 0} → A → M A
return a s = (ok a, s)

abbrev pub raise : {A : Type 0} → EnterpriseError → M A
raise e s = (throw e, s)

abbrev pub lift : {A : Type 0} → Result A → M A
lift r s = (r, s)

-- The call of `audit.log`, which is noted whether it throws or not.
unfoldable pub write_audit : GatewayMethods → ExchangeAudit → M (Unit {0})
write_audit gateway entry s = (
  elim (gateway.audit_log entry) [ ok id ↦ ok tt | throw e ↦ throw e ],
  record s { log = s.log ++ entry ∷ [] },
)

unfoldable pub log_exchange : GatewayMethods → ExchangeLogParams → M (Unit {0})
unfolding write_audit
log_exchange gateway params = write_audit gateway (exchange_record params)

abbrev pub log_data_withheld :
    GatewayMethods → String → String → String → List WithheldRecord → String → M (Unit {0})
log_data_withheld gateway tenant_id user_id exchange_id [] policy_applied = return tt
log_data_withheld gateway tenant_id user_id exchange_id (w ∷ ws) policy_applied =
    write_audit gateway (withheld_record tenant_id user_id exchange_id (w ∷ ws) policy_applied)

abbrev pub set_message : (Message → Message) → M (Unit {0})
set_message f s =
    (ok tt, record s { context = record (s.context) { message = f s.context.message } })

abbrev pub set_ocip : OcipEnvelope → M (Unit {0})
set_ocip envelope s = (ok tt, record s { context = record (s.context) { ocip = some envelope } })
