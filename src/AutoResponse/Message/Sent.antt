-- ===== src/AutoResponse/Message/Sent.antt =====
-- What an answer that is sent has passed.
use openclaw_enterprise.Common.{
  String, false, some, none, ◌≡◌, refl, sym, ◌∙◌, ap, arith, lookup, includes, Bool-cases, inl, inr,
}
use openclaw_enterprise.Shared.Types.{
  MessageClassification, noise, ActionAutonomyLevel, autonomous, notify, approve, block, deny,
}
use openclaw_enterprise.Shared.Policy.{PolicyEvaluateResponse, AuditRecord}
use openclaw_enterprise.Shared.Errors.{Result, ok, throw, ◌>>=◌}
use openclaw_enterprise.AutoResponse.Queue.{QueueState, AuditLog, noted, enqueue}
use openclaw_enterprise.AutoResponse.Responder.{
  IncomingMessageContext, Services, ClassificationResult, GenerateResponseResult, andthen, classify,
  classify_at, generate, generate_at, generate_with, map_policy_decision_to_autonomy,
  response_request, disclosed,
}
use openclaw_enterprise.AutoResponse.Message.{
  AutoResponseScopeConfig, default_scope_config, sent, queued, to_queue, done, AutoResponseResult,
  resolve_autonomy_level, dispatch, resolved, drafted, answer, process_message,
}

andthen-eq-ok :
    {A B : Type 0} (x : Result A × QueueState) (f : A → QueueState → Result B × QueueState) (b : B)
    (s' : QueueState)
    → andthen x f ≡ (ok b, s')
    → (a : A) × (t : QueueState) × (x ≡ (ok a, t)) × (f a t ≡ (ok b, s'))
andthen-eq-ok (ok a, t) f b s' h = (a, t, refl, h)
andthen-eq-ok (throw e, t) f b s' h = cc

noted_at-eq-ok :
    {A : Type 0} (r : Result String) (v w : A) (s s' : QueueState)
    → ◌≡◌ {A = Result A × QueueState} (r >>= (λ _. ok v), s) (ok w, s')
    → v ≡ w
noted_at-eq-ok (ok id) v w s s' h = cc
noted_at-eq-ok (throw e) v w s s' h = cc

noted-eq-ok :
    {A : Type 0} (audit_log : AuditLog) (entry : AuditRecord) (v w : A) (s s' : QueueState)
    → noted audit_log entry v s ≡ (ok w, s')
    → v ≡ w
noted-eq-ok audit_log entry v w s s' h = noted_at-eq-ok (audit_log entry) v w _ s' h

-- A message that was classified has the class that the model gave.
classify_at-eq-ok :
    (services : Services) (c : IncomingMessageContext) (x : Result ClassificationResult)
    (m : ClassificationResult) (s s' : QueueState)
    → classify_at services c x s ≡ (ok m, s')
    → x ≡ ok m
unfolding classify_at
classify_at-eq-ok services c (throw e) m s s' h = cc
classify_at-eq-ok services c (ok n) m s s' h =
    ap (λ k. ok k) (noted-eq-ok services.audit_log _ n m s s' h)

module _ (services : Services) (c : IncomingMessageContext) where
  -- What the answer `g` to a message of the class `k` comes from.
  abbrev IsDraft : MessageClassification → GenerateResponseResult → Type 0
  IsDraft k g =
      (p : PolicyEvaluateResponse) × (text : String) × (services.policy_evaluate
          (response_request c k)
        ≡ ok p)
      × (services.response_model c k ≡ ok text)
      × (g.autonomy_level ≡ map_policy_decision_to_autonomy p.decision)
      × (g.response_body ≡ disclosed text)

  generate_with-IsDraft :
      (k : MessageClassification) (p : PolicyEvaluateResponse) (x : Result String)
      (g : GenerateResponseResult) (s s' : QueueState)
      → services.policy_evaluate (response_request c k) ≡ ok p
      → services.response_model c k ≡ x
      → generate_with services c k p x s ≡ (ok g, s')
      → IsDraft k g
  unfolding generate_with
  generate_with-IsDraft k p (throw e) g s s' answered_ modelled h = cc
  generate_with-IsDraft k p (ok text) g s s' answered_ modelled h =
      let same = noted-eq-ok services.audit_log _ _ g s s' h in
      (
        p,
        text,
        answered_,
        modelled,
        ap (λ r. r.autonomy_level) (sym same),
        ap (λ r. r.response_body) (sym same),
      )

  generate_at-IsDraft :
      (k : MessageClassification) (x : Result PolicyEvaluateResponse) (g : GenerateResponseResult)
      (s s' : QueueState)
      → services.policy_evaluate (response_request c k) ≡ x
      → generate_at services c k x s ≡ (ok g, s')
      → IsDraft k g
  unfolding generate_at
  generate_at-IsDraft k (throw e) g s s' answered_ h = cc
  generate_at-IsDraft k (ok p) g s s' answered_ h =
      generate_with-IsDraft k p (services.response_model c k) g s s' answered_ refl h

  dispatch-sent :
      (now : String) (k : MessageClassification) (g : GenerateResponseResult)
      (level : ActionAutonomyLevel) (r : AutoResponseResult) (s s' : QueueState)
      → dispatch services now c k g level s ≡ (ok r, s')
      → r.action ≡ sent
      → (level ≡ autonomous) × (r.response_body ≡ some g.response_body) × (r.classification ≡ k)
  unfolding dispatch
  dispatch-sent now k g autonomous r s s' h a = (refl, ground arith, ground arith)
  dispatch-sent now k g notify r s s' h a = ground arith
  dispatch-sent now k g approve r s s' h a =
      let (id, t, queued_, rest) =
        andthen-eq-ok {A = String} (enqueue services.audit_log now (to_queue c k g) s)
          (λ id t. (ok (done c k approve queued (some g.response_body) (some id)), t)) r s' h in
      ground arith
  dispatch-sent now k g block r s s' h a = ground arith

  -- What holds where the answer of the result is sent without a user's approval.
  pub record IsCleared (config : AutoResponseScopeConfig) (r : AutoResponseResult) : Type 0 where
    pub channel_enabled : includes config.disabled_channels c.channel ≡ false
    pub contact_enabled : includes config.disabled_contacts c.sender ≡ false
    pub cleared :
        (m : ClassificationResult) × (p : PolicyEvaluateResponse) × (text : String)
        × (services.classify_model c ≡ ok m)
        × (services.policy_evaluate (response_request c m.classification) ≡ ok p)
        × (services.response_model c m.classification ≡ ok text)
        × (resolve_autonomy_level config c.channel c.sender m.classification
              (map_policy_decision_to_autonomy p.decision)
            ≡ autonomous)
        × (r.response_body ≡ some (disclosed text))
        × (r.classification ≡ m.classification)

  -- Where a message is processed and its answer is sent at once, neither its channel nor its sender
  -- is disabled, the classifier's model gave the class that the result names, the policy engine and
  -- the response model answered for this class, the overrides for it and the policy's decision come
  -- out as autonomous, and the answer that is sent is the model's with the disclosure label.
  pub process_message-IsCleared :
      (config : AutoResponseScopeConfig) (now : String) (r : AutoResponseResult) (s s' : QueueState)
      → process_message services config now c s ≡ (ok r, s')
      → r.action ≡ sent
      → IsCleared config r
  unfolding process_message answer generate classify
  process_message-IsCleared config now r s s' h a =
      elim (Bool-cases (includes config.disabled_channels c.channel)) [
        | inl off ↦ let skipped_ = rw off at h in absurd (ground arith)
        | inr on ↦ elim (Bool-cases (includes config.disabled_contacts c.sender)) [
          | inl off ↦ let skipped_ = rw off at (rw on at h) in absurd (ground arith)
          | inr on' ↦
              let (k, t, classified, h1) =
                andthen-eq-ok (classify services c s) (drafted services config now c) r s'
                  (rw on' at (rw on at h)) in
              let (g, u, made, h2) =
                andthen-eq-ok (generate services c k.classification t)
                  (resolved services config now c k.classification) r s' h1 in
              let (p, text, e1, e2, e3, e4) =
                generate_at-IsDraft k.classification
                  (services.policy_evaluate (response_request c k.classification)) g t u refl
                  made in
              let (level, body, class) = dispatch-sent now k.classification g _ r u s' h2 a in
              let modelled =
                classify_at-eq-ok services c (services.classify_model c) k s t classified in
              record {
                channel_enabled = on;
                contact_enabled = on';
                cleared = (k, p, text, modelled, e1, e2, rw e3 at level, body ∙ ap some e4, class);
              }
        ]
      ]

-- With the default configuration the answer to a message that is classified as noise is sent at
-- once although the policy engine denies it, where the models answer and the audit log takes every
-- record.
pub process_message-noise :
    (services : Services) (c : IncomingMessageContext) (now : String) (s : QueueState)
    (r : ClassificationResult) (p : PolicyEvaluateResponse) (text : String)
    (id_of : AuditRecord → String)
    → ((entry : AuditRecord) → services.audit_log entry ≡ ok (id_of entry))
    → services.classify_model c ≡ ok r
    → r.classification ≡ noise
    → services.policy_evaluate (response_request c noise) ≡ ok p
    → p.decision ≡ deny
    → services.response_model c noise ≡ ok text
    → (result : AutoResponseResult) × ((process_message services default_scope_config now c s).0
        ≡ ok result)
      × (result.action ≡ sent)
      × (result.response_body ≡ some (disclosed text))
unfolding process_message answer classify classify_at generate generate_at generate_with dispatch
    resolve_autonomy_level lookup
process_message-noise services c now s r p text id_of audited classified is_noise answered_ denied
      modelled =
    (
      done c noise autonomous sent (some (disclosed text)) none,
      simp (audited, classified, is_noise, answered_, denied, modelled),
      refl,
      refl,
    )
