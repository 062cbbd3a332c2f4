-- ===== src/Policy/Classify.antt =====
-- plugins/policy-engine/src/classification/classify.ts: the level of a connector's content. The
-- model's answer is a parameter, and so is the type of its confidence, a fraction.
use openclaw_enterprise.Common.{
  String, Option, some, none, if◌then◌else◌, ltb, ◌<◌, ◌≤◌, ◌≡◌, ◌≢◌, ◌⊎◌, inl, inr, refl, arith,
  Bool-cases,
}
use openclaw_enterprise.Common.Text.{is_empty, is_empty-eq, is_empty-ne}
use openclaw_enterprise.Shared.Types.{
  DataClassificationLevel, ClassificationAssigner, connector_default, ai_reclassification,
  ConnectorType,
}
use openclaw_enterprise.Shared.Levels.{classification_index, connector_default_classification}
use openclaw_enterprise.Shared.Errors.{EnterpriseError, Result, ok, throw}

pub record ClassifyRequest : Type 0 where
  pub connector_type : ConnectorType
  pub content_summary : String
  pub source_id : String

pub record ClassifyResponse (Confidence : Type 0) : Type 0 where
  pub classification : DataClassificationLevel
  pub assigned_by : ClassificationAssigner
  pub original_level : Option DataClassificationLevel
  pub confidence : Confidence

module _ {Confidence : Type 0} (certain : Confidence) where
  abbrev by_default : DataClassificationLevel → ClassifyResponse Confidence
  by_default level = record {
    classification = level;
    assigned_by = connector_default;
    original_level = none;
    confidence = certain;
  }

  -- The result of the model, or that it threw.
  abbrev reclassify :
      DataClassificationLevel
      → Result (DataClassificationLevel × Confidence)
      → ClassifyResponse Confidence
  reclassify level (throw e) = by_default level
  reclassify level (ok (ai, confidence)) =
      if ltb (classification_index level) (classification_index ai)
      then record {
        classification = ai;
        assigned_by = ai_reclassification;
        original_level = some level;
        confidence = confidence;
      }
      else by_default level

  abbrev classify_with :
      Option (String → Result (DataClassificationLevel × Confidence))
      → ClassifyRequest
      → ClassifyResponse Confidence
  classify_with none params = by_default (connector_default_classification params.connector_type)
  classify_with (some ai_classify) params =
      let level = connector_default_classification params.connector_type in
      if is_empty params.content_summary
      then by_default level
      else reclassify level (ai_classify params.content_summary)

  -- `DataClassifier.classify`; no model is `none`.
  unfoldable pub classify :
      Option (String → Result (DataClassificationLevel × Confidence))
      → ClassifyRequest
      → ClassifyResponse Confidence
  classify ai_classify params = classify_with ai_classify params

  -- The model gave this answer for a request: there is a model and a content, and it did not throw.
  abbrev pub Answers :
      Option (String → Result (DataClassificationLevel × Confidence))
      → ClassifyRequest
      → DataClassificationLevel × Confidence
      → Type 0
  Answers ai_classify params answer =
      (f : String → Result (DataClassificationLevel × Confidence)) × (ai_classify ≡ some f)
      × (params.content_summary ≢ "")
      × (f params.content_summary ≡ ok answer)

  -- Why the model gave no level above the default: there is no model, there is no content, the model
  -- threw, or its level is not higher.
  pub data NoneHigher
      (ai_classify : Option (String → Result (DataClassificationLevel × Confidence)))
      (params : ClassifyRequest) (level : DataClassificationLevel) : Type 0 where
    no_model : ai_classify ≡ none → NoneHigher ai_classify params level
    no_content : params.content_summary ≡ "" → NoneHigher ai_classify params level
    threw :
        (f : String → Result (DataClassificationLevel × Confidence)) (e : EnterpriseError)
        → ai_classify ≡ some f
        → f params.content_summary ≡ throw e
        → NoneHigher ai_classify params level
    not_higher :
        (answer : DataClassificationLevel × Confidence)
        → Answers ai_classify params answer
        → classification_index answer.0 ≤ classification_index level
        → NoneHigher ai_classify params level

  -- The default level stands.
  pub record IsDefault
      (ai_classify : Option (String → Result (DataClassificationLevel × Confidence)))
      (params : ClassifyRequest) (level : DataClassificationLevel) (r : ClassifyResponse Confidence)
      : Type 0 where
    pub reason : NoneHigher ai_classify params level
    pub same_level : r.classification ≡ level
    pub by_connector : r.assigned_by ≡ connector_default
    pub no_original : r.original_level ≡ none

  -- The level is the model's, and is above the default.
  pub record IsReclassified
      (ai_classify : Option (String → Result (DataClassificationLevel × Confidence)))
      (params : ClassifyRequest) (level : DataClassificationLevel) (r : ClassifyResponse Confidence)
      : Type 0 where
    pub answered : Answers ai_classify params (r.classification, r.confidence)
    pub is_higher : classification_index level < classification_index r.classification
    pub by_model : r.assigned_by ≡ ai_reclassification
    pub original : r.original_level ≡ some level

  abbrev pub IsRaised :
      Option (String → Result (DataClassificationLevel × Confidence))
      → ClassifyRequest
      → DataClassificationLevel
      → ClassifyResponse Confidence
      → Type 0
  IsRaised ai_classify params level r =
      IsDefault ai_classify params level r ⊎ IsReclassified ai_classify params level r

  by_default-IsDefault :
      (ai_classify : Option (String → Result (DataClassificationLevel × Confidence)))
      (params : ClassifyRequest) (level : DataClassificationLevel)
      → NoneHigher ai_classify params level
      → IsDefault ai_classify params level (by_default level)
  by_default-IsDefault ai_classify params level why = record {
    reason = why;
    same_level = refl;
    by_connector = refl;
    no_original = refl;
  }

  reclassify-IsRaised :
      (f : String → Result (DataClassificationLevel × Confidence)) (params : ClassifyRequest)
      (level : DataClassificationLevel) (x : Result (DataClassificationLevel × Confidence))
      → params.content_summary ≢ ""
      → f params.content_summary ≡ x
      → IsRaised (some f) params level (reclassify level x)
  reclassify-IsRaised f params level (throw e) full is =
      inl (by_default-IsDefault (some f) params level (threw f e refl is))
  reclassify-IsRaised f params level (ok (ai, confidence)) full is =
      elim (Bool-cases (ltb (classification_index level) (classification_index ai))) [
        | inl higher ↦ rw higher (
            inr (record {
              answered = (f, refl, full, is);
              is_higher = ground arith;
              by_model = refl;
              original = refl;
            }))
        | inr lower ↦
            let bound : classification_index ai ≤ classification_index level = ground arith in
            let why = not_higher (ai, confidence) (f, refl, full, is) bound in
            rw lower (inl (by_default-IsDefault (some f) params level why))
      ]

  -- The level is the connector's default where the model gave no level above it: where there is no
  -- model or no content, where the model throws and where its level is not higher. Otherwise it is
  -- the level that the model gave, with its confidence and with the default kept as the original.
  pub classify-IsRaised :
      (ai_classify : Option (String → Result (DataClassificationLevel × Confidence)))
      (params : ClassifyRequest)
      → IsRaised ai_classify params
          (connector_default_classification params.connector_type)
          (classify ai_classify params)
  unfolding classify
  classify-IsRaised none params = inl (
      by_default-IsDefault none params (connector_default_classification params.connector_type)
        (no_model refl))
  classify-IsRaised (some ai_classify) params =
      let level = connector_default_classification params.connector_type in
      elim (Bool-cases (is_empty params.content_summary)) [
        | inl empty ↦
            let why = no_content (is_empty-eq params.content_summary empty) in
            rw empty (inl (by_default-IsDefault (some ai_classify) params level why))
        | inr full ↦ rw full (
            reclassify-IsRaised ai_classify params level (ai_classify params.content_summary)
              (is_empty-ne params.content_summary full) refl)
      ]
