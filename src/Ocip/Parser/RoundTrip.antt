-- ===== src/Ocip/Parser/RoundTrip.antt =====
-- The parser reads back what the builder writes, and accepts nothing incomplete.
use openclaw_enterprise.Common.{
  ◌≡◌, ◌∙◌, refl, ap, String, List, [], ◌∷◌, true, false, Option, some, none, str_eq, eq_refl,
  Bool-cases, inl, inr, arith,
}
use openclaw_enterprise.Common.Text.{is_empty}
use openclaw_enterprise.Shared.Types.{
  DataClassificationLevel, public, internal, confidential, restricted, OcipMessageType,
  agent_generated, agent_assisted, human, ReplyPolicy, agent_ok, human_only, no_reply_needed,
}
use openclaw_enterprise.Shared.Json.{
  Json, null, bool, num, non_finite, str, arr, obj, Fields, items, get_field, set_field, end, field,
}
use openclaw_enterprise.Shared.Levels.{level_name, level_of, classification_levels}
use openclaw_enterprise.Shared.Errors.{Result, ok, throw, >>=-ok}
use openclaw_enterprise.Ocip.Envelope.{
  message_type_name, reply_policy_name, SourceAgent, OcipEnvelope, level_items, envelope_fields,
}
use openclaw_enterprise.Ocip.Parser.{
  parsed, parse_raw, known, require_object, require_number, as_string, require_string,
  message_type_of, reply_policy_of, valid_message_types, valid_reply_policies, levels_in,
  parse_source_agent, extract_envelope, parse,
}

as_string-nonempty :
    (key : String) (v : Option Json) {s : String} → as_string key v ≡ ok s → is_empty s ≡ false
as_string-nonempty key none h = cc
as_string-nonempty key (some null) h = cc
as_string-nonempty key (some (bool b)) h = cc
as_string-nonempty key (some (num n)) h = cc
as_string-nonempty key (some non_finite) h = cc
as_string-nonempty key (some (str s)) h = ground arith
as_string-nonempty key (some (arr vs)) h = cc
as_string-nonempty key (some (obj fs)) h = cc

-- The texts that the parser requires are there.
pub record IsComplete (e : OcipEnvelope) : Type 0 where
  pub version : is_empty e.version ≡ false
  pub instance_id : is_empty e.source_agent.instance_id ≡ false
  pub user_id : is_empty e.source_agent.user_id ≡ false
  pub org_unit : is_empty e.source_agent.org_unit ≡ false
  pub tenant_id : is_empty e.source_agent.tenant_id ≡ false
  pub conversation_id : is_empty e.conversation_id ≡ false
  pub expires_at : is_empty e.expires_at ≡ false

level_of-level_name :
    (l : DataClassificationLevel) → level_of (level_name l) classification_levels ≡ some l
level_of-level_name public = refl
level_of-level_name internal = refl
level_of-level_name confidential = refl
level_of-level_name restricted = refl

is_empty-level_name : (l : DataClassificationLevel) → is_empty (level_name l) ≡ false
is_empty-level_name public = refl
is_empty-level_name internal = refl
is_empty-level_name confidential = refl
is_empty-level_name restricted = refl

known_type :
    (t : OcipMessageType) → message_type_of (message_type_name t) valid_message_types ≡ some t
known_type agent_generated = refl
known_type agent_assisted = refl
known_type human = refl

is_empty-message_type_name : (t : OcipMessageType) → is_empty (message_type_name t) ≡ false
is_empty-message_type_name agent_generated = refl
is_empty-message_type_name agent_assisted = refl
is_empty-message_type_name human = refl

known_policy :
    (p : ReplyPolicy) → reply_policy_of (reply_policy_name p) valid_reply_policies ≡ some p
known_policy agent_ok = refl
known_policy human_only = refl
known_policy no_reply_needed = refl

is_empty-reply_policy_name : (p : ReplyPolicy) → is_empty (reply_policy_name p) ≡ false
is_empty-reply_policy_name agent_ok = refl
is_empty-reply_policy_name human_only = refl
is_empty-reply_policy_name no_reply_needed = refl

levels_in-level_items :
    (ls : List DataClassificationLevel) → levels_in (items (level_items ls)) ≡ ls
unfolding levels_in
levels_in-level_items [] = refl
levels_in-level_items (public ∷ ls) = ap (λ r. public ∷ r) (levels_in-level_items ls)
levels_in-level_items (internal ∷ ls) = ap (λ r. internal ∷ r) (levels_in-level_items ls)
levels_in-level_items (confidential ∷ ls) = ap (λ r. confidential ∷ r) (levels_in-level_items ls)
levels_in-level_items (restricted ∷ ls) = ap (λ r. restricted ∷ r) (levels_in-level_items ls)

extract_envelope-envelope_fields :
    (e : OcipEnvelope) → IsComplete e → extract_envelope (envelope_fields e) ≡ ok e
unfolding extract_envelope envelope_fields
extract_envelope-envelope_fields e c = simp (
  c.version, is_empty-message_type_name, known_type, c.instance_id, c.user_id, c.org_unit,
  c.tenant_id, is_empty-level_name, level_of-level_name, c.conversation_id,
  is_empty-reply_policy_name, known_policy, c.expires_at, levels_in-level_items,
)

get_field-set_field : (k : String) (v : Json) (m : Fields) → get_field k (set_field k v m) ≡ some v
get_field-set_field k v end = rw (eq_refl k) refl
get_field-set_field k v (field j w m) = elim (Bool-cases (str_eq j k)) [
  | inl e ↦ rw e (rw e refl)
  | inr e ↦ rw e (rw e (get_field-set_field k v m))
]

-- The parser reads back the envelope that is attached to a message, where the texts that it
-- requires are not empty; every other part of the message may be anything.
pub parse-envelope_fields :
    (e : OcipEnvelope) (message : Fields)
    → IsComplete e
    → parse (set_field "ocip" (obj (envelope_fields e)) message)
      ≡ record { is_ocip = true; envelope = some e; parse_error = none }
unfolding parse
parse-envelope_fields e message c =
    rw (get_field-set_field "ocip" (obj (envelope_fields e)) message)
      (rw (extract_envelope-envelope_fields e c) refl)

require_string-nonempty :
    (fields : Fields) (key : String) {s : String}
    → require_string fields key ≡ ok s
    → is_empty s ≡ false
unfolding require_string
require_string-nonempty fields key h = as_string-nonempty key (get_field key fields) h

abbrev AgentIsComplete : SourceAgent → Type 0
AgentIsComplete a =
    (is_empty a.instance_id ≡ false)
    × (is_empty a.user_id ≡ false)
    × (is_empty a.org_unit ≡ false)
    × (is_empty a.tenant_id ≡ false)

parse_source_agent-IsComplete :
    (agent : Fields) {a : SourceAgent} → parse_source_agent agent ≡ ok a → AgentIsComplete a
unfolding parse_source_agent
parse_source_agent-IsComplete agent h =
    let (i, hi, h) = >>=-ok (require_string agent "instance_id") _ h in
    let (u, hu, h) = >>=-ok (require_string agent "user_id") _ h in
    let (o, ho, h) = >>=-ok (require_string agent "org_unit") _ h in
    let (t, ht, h) = >>=-ok (require_string agent "tenant_id") _ h in
    ground (
      arith,
      require_string-nonempty agent "instance_id" hi,
      require_string-nonempty agent "user_id" hu,
      require_string-nonempty agent "org_unit" ho,
      require_string-nonempty agent "tenant_id" ht,
    )

extract_envelope-IsComplete :
    (raw : Fields) {e : OcipEnvelope} → extract_envelope raw ≡ ok e → IsComplete e
unfolding extract_envelope
extract_envelope-IsComplete raw h =
    let (version, hv, h) = >>=-ok (require_string raw "version") _ h in
    let (mt, _, h) = >>=-ok (require_string raw "message_type") _ h in
    let (_, _, h) = >>=-ok (known "message_type" mt (message_type_of mt valid_message_types)) _ h in
    let (agent, _, h) = >>=-ok (require_object raw "source_agent") _ h in
    let (source, ha, h) = >>=-ok (parse_source_agent agent) _ h in
    let (lt, _, h) = >>=-ok (require_string raw "classification") _ h in
    let (_, _, h) = >>=-ok (known "classification" lt (level_of lt classification_levels)) _ h in
    let (c, hc, h) = >>=-ok (require_string raw "conversation_id") _ h in
    let (_, _, h) = >>=-ok (require_number raw "exchange_round") _ h in
    let (_, _, h) = >>=-ok (require_number raw "max_rounds") _ h in
    let (_, _, h) = >>=-ok (require_object raw "capabilities") _ h in
    let (pt, _, h) = >>=-ok (require_string raw "reply_policy") _ h in
    let (_, _, h) =
      >>=-ok (known "reply_policy" pt (reply_policy_of pt valid_reply_policies)) _ h in
    let (x, hx, h) = >>=-ok (require_string raw "expires_at") _ h in
    ground (
      arith,
      require_string-nonempty raw "version" hv,
      parse_source_agent-IsComplete agent ha,
      require_string-nonempty raw "conversation_id" hc,
      require_string-nonempty raw "expires_at" hx,
    )

parsed-IsComplete :
    (raw : Fields) (x : Result OcipEnvelope) {e : OcipEnvelope}
    → extract_envelope raw ≡ x
    → (parsed x).envelope ≡ some e
    → IsComplete e
parsed-IsComplete raw (ok a) eq h = extract_envelope-IsComplete raw (eq ∙ ground arith)
parsed-IsComplete raw (throw x) eq h = cc

parse_raw-IsComplete :
    (v : Option Json) {e : OcipEnvelope} → (parse_raw v).envelope ≡ some e → IsComplete e
unfolding parse_raw
parse_raw-IsComplete none h = cc
parse_raw-IsComplete (some null) h = cc
parse_raw-IsComplete (some (bool b)) h = cc
parse_raw-IsComplete (some (num n)) h = cc
parse_raw-IsComplete (some non_finite) h = cc
parse_raw-IsComplete (some (str s)) h = cc
parse_raw-IsComplete (some (arr vs)) h = cc
parse_raw-IsComplete (some (obj raw)) h = parsed-IsComplete raw (extract_envelope raw) refl h

-- Whatever message the parser takes an envelope from, the envelope's version, agent, conversation
-- and expiry are not empty, and the envelope attached to any other message is read there unchanged.
pub parse-accepted :
    (message other : Fields) (e : OcipEnvelope)
    → (parse message).envelope ≡ some e
    → IsComplete e
      × (parse (set_field "ocip" (obj (envelope_fields e)) other)
          ≡ record { is_ocip = true; envelope = some e; parse_error = none })
unfolding parse
parse-accepted message other e h =
    let c = parse_raw-IsComplete (get_field "ocip" message) h in
    (c, parse-envelope_fields e other c)
