-- ===== src/Ocip/Filter.antt =====
-- plugins/ocip-protocol/src/classification/filter.ts: what may leave with a message.
pub mod Laws
use openclaw_enterprise.Common.{String, List, [], ◌∷◌, ◌++◌, Bool, not, if◌then◌else◌, ltb}
use openclaw_enterprise.Common.Text.{template}
use openclaw_enterprise.Shared.Types.{DataClassificationLevel}
use openclaw_enterprise.Shared.Levels.{classification_index, level_name, includes_level}

pub record ClassifiableDataItem : Type 0 where
  pub source : String
  pub fields : List String
  pub classification : DataClassificationLevel
  pub description : String

pub record WithheldRecord : Type 0 where
  pub reason : String
  pub description : String

pub record FilterResult : Type 0 where
  pub allowed : List ClassifiableDataItem
  pub withheld : List WithheldRecord

-- `ClassificationFilter.isMoreSensitive`.
abbrev pub is_more_sensitive : DataClassificationLevel → DataClassificationLevel → Bool
is_more_sensitive a b = ltb (classification_index b) (classification_index a)

abbrev withhold : String → ClassifiableDataItem → WithheldRecord
withhold reason item = record {
  reason = reason;
  description = template (item.source ∷ ": " ∷ item.description ∷ []);
}

-- One round of the loop.
unfoldable pub filter_item :
    List DataClassificationLevel
    → DataClassificationLevel
    → ClassifiableDataItem
    → FilterResult
    → FilterResult
filter_item receiver_can_share exchange item r =
    if is_more_sensitive item.classification exchange
    then record r {
      withheld =
          r.withheld
          ++ withhold
              (template (
                "Classification \""
                ∷ level_name item.classification
                ∷ "\" exceeds exchange ceiling \""
                ∷ level_name exchange
                ∷ "\""
                ∷ []))
              item
            ∷ [];
    }
    else if not (includes_level receiver_can_share item.classification)
    then record r {
      withheld =
          r.withheld
          ++ withhold
              (template (
                "Receiver cannot accept classification \""
                ∷ level_name item.classification
                ∷ "\""
                ∷ []))
              item
            ∷ [];
    }
    else record r { allowed = r.allowed ++ item ∷ [] }

filter_items :
    List DataClassificationLevel
    → DataClassificationLevel
    → List ClassifiableDataItem
    → FilterResult
    → FilterResult
filter_items receiver_can_share exchange [] r = r
filter_items receiver_can_share exchange (item ∷ items) r =
    filter_items receiver_can_share exchange items (filter_item receiver_can_share exchange item r)

unfoldable pub filter :
    List ClassifiableDataItem
    → List DataClassificationLevel
    → DataClassificationLevel
    → FilterResult
unfolding filter_items
filter items receiver_can_share exchange =
    filter_items receiver_can_share exchange items (record { allowed = []; withheld = [] })
