-- ===== src/Shared/Levels.antt =====
-- plugins/shared/src/constants.ts: the order of the classification levels and their names.
use openclaw_enterprise.Common.{
  ℕ, ◌≡◌, ◌↔◌, refl, List, [], ◌∷◌, Bool, true, false, ◌||◌, Option, none, some, String, str_eq,
  ◌==◌, if◌then◌else◌, arith, suc,
}
use openclaw_enterprise.Shared.Types.{
  DataClassificationLevel, public, internal, confidential, restricted, ConnectorType, gmail, gcal,
  jira, github, gdrive,
}

-- `CLASSIFICATION_LEVELS`, from the least to the most sensitive.
abbrev pub classification_levels : List DataClassificationLevel
classification_levels = public ∷ internal ∷ confidential ∷ restricted ∷ []

-- The text that stands for a level at run time.
abbrev pub level_name : DataClassificationLevel → String
level_name public = "public"
level_name internal = "internal"
level_name confidential = "confidential"
level_name restricted = "restricted"

-- `CLASSIFICATION_LEVELS.indexOf(level)`; `none` is -1.
abbrev pub index_of : String → List DataClassificationLevel → Option ℕ
index_of s [] = none
index_of s (l ∷ ls) =
    if str_eq s (level_name l)
    then some 0
    else elim (index_of s ls) [ none ↦ none | some i ↦ some (suc i) ]

-- `CLASSIFICATION_LEVELS.indexOf(level)` where the type says that the level is one of the four.
abbrev pub classification_index : DataClassificationLevel → ℕ
classification_index public = 0
classification_index internal = 1
classification_index confidential = 2
classification_index restricted = 3

pub index_of-level_name :
    (l : DataClassificationLevel)
    → index_of (level_name l) classification_levels ≡ some (classification_index l)
index_of-level_name public = refl
index_of-level_name internal = refl
index_of-level_name confidential = refl
index_of-level_name restricted = refl

-- `CLASSIFICATION_LEVELS.includes(s)`, with the level that the text then is.
abbrev pub level_of : String → List DataClassificationLevel → Option DataClassificationLevel
level_of s [] = none
level_of s (l ∷ ls) = if str_eq s (level_name l) then some l else level_of s ls

-- The levels as numbers: equal index, equal level.
pub classification_index_inj :
    (a b : DataClassificationLevel) → classification_index a ≡ classification_index b → a ≡ b
classification_index_inj a b h = ground arith

abbrev pub level_eq : DataClassificationLevel → DataClassificationLevel → Bool
level_eq a b = classification_index a == classification_index b

pub level_eq_iff : (a b : DataClassificationLevel) → (level_eq a b ≡ true) ↔ (a ≡ b)
level_eq_iff a b = ground arith

-- `levels.includes(level)`.
abbrev pub includes_level : List DataClassificationLevel → DataClassificationLevel → Bool
includes_level [] l = false
includes_level (k ∷ ks) l = level_eq k l || includes_level ks l

-- `CONNECTOR_DEFAULT_CLASSIFICATION`.
abbrev pub connector_default_classification : ConnectorType → DataClassificationLevel
connector_default_classification gmail = internal
connector_default_classification gcal = internal
connector_default_classification jira = internal
connector_default_classification github = public
connector_default_classification gdrive = internal
