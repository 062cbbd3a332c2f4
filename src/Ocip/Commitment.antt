-- ===== src/Ocip/Commitment.antt =====
-- plugins/ocip-protocol/src/envelope/commitment.ts: exchanges that need a human. `lower` is
-- `String.prototype.toLowerCase` of the runtime, whose tables are Unicode's.
use openclaw_enterprise.Common.{
  String, List, [], ◌∷◌, Bool, true, false, Option, some, none, ◌≡◌, ◌↔◌, ◌⊎◌, arith, select,
  if◌then◌else◌,
}
use openclaw_enterprise.Common.Text.{template, join, has_part, is_empty}
use openclaw_enterprise.Shared.Types.{
  ExchangeType, information_query, commitment_request, meeting_scheduling, ReplyPolicy, human_only,
}
use openclaw_enterprise.Shared.Errors.{commitment_requires_human, Result, ok, throw}
use openclaw_enterprise.Ocip.Envelope.{OcipEnvelope}

pub record CommitmentDetectionResult : Type 0 where
  pub requires_human : Bool
  pub reason : Option String
  pub detected_keywords : List String

abbrev pub commitment_keywords : List String
commitment_keywords =
    "schedule" ∷ "meeting" ∷ "agree" ∷ "approve" ∷ "allocate" ∷ "assign" ∷ "reserve" ∷ "commit"
    ∷ "confirm" ∷ "book" ∷ "deadline" ∷ "promise" ∷ "guarantee" ∷ []

-- `isCommitmentExchangeType`.
abbrev pub is_commitment_exchange_type : ExchangeType → Bool
is_commitment_exchange_type information_query = false
is_commitment_exchange_type commitment_request = true
is_commitment_exchange_type meeting_scheduling = true

unfoldable pub detect_commitment_keywords : (String → String) → String → List String
detect_commitment_keywords lower content =
    let lower_content = lower content in
    select (λ keyword. has_part lower_content keyword) commitment_keywords

abbrev pub is_human_only : ReplyPolicy → Bool
is_human_only human_only = true
is_human_only _ = false

abbrev needs_human : String → List String → CommitmentDetectionResult
needs_human reason keywords = record {
  requires_human = true;
  reason = some reason;
  detected_keywords = keywords;
}

abbrev needs_nobody : CommitmentDetectionResult
needs_nobody = record { requires_human = false; reason = none; detected_keywords = [] }

by_keywords : List String → CommitmentDetectionResult
by_keywords [] = needs_nobody
by_keywords (k ∷ ks) =
    needs_human
      (template ("Message content contains commitment language: " ∷ join ", " (k ∷ ks) ∷ []))
      (k ∷ ks)

-- An absent message content is the empty text here: both are skipped.
unfoldable pub detect : (String → String) → OcipEnvelope → String → CommitmentDetectionResult
unfolding by_keywords
detect lower envelope content =
    if envelope.requires_commitment
    then needs_human "Exchange explicitly requires commitment (requires_commitment=true)" []
    else if is_human_only envelope.reply_policy
    then needs_human "Exchange requires human-only reply (reply_policy=human-only)" []
    else if is_empty content
    then needs_nobody
    else by_keywords (detect_commitment_keywords lower content)

unfoldable pub enforce_commitment_policy :
    (String → String) → String → OcipEnvelope → String → Result (Unit {0})
enforce_commitment_policy lower exchange_id envelope content =
    if (detect lower envelope content).requires_human
    then throw (commitment_requires_human exchange_id)
    else ok tt

-- An exchange passes without a human exactly when it asks for no commitment, an agent may reply,
-- and its content, where there is one, holds none of the keywords.
pub enforce_commitment_policy-ok_iff :
    (lower : String → String) (exchange_id : String) (envelope : OcipEnvelope) (content : String)
    → (enforce_commitment_policy lower exchange_id envelope content ≡ ok tt) ↔ (
        (envelope.requires_commitment ≡ false)
        × (is_human_only envelope.reply_policy ≡ false)
        × ((is_empty content ≡ true) ⊎ (detect_commitment_keywords lower content ≡ [])))
unfolding enforce_commitment_policy detect
enforce_commitment_policy-ok_iff lower exchange_id envelope content = ground arith
