-- ===== src/WorkTracking/PrJira.antt =====
-- plugins/work-tracking/src/correlation/pr-jira.ts: the ticket keys that a pull request names.
pub mod Named
use Prim.Native.Char.{code}
use openclaw_enterprise.Common.{String, List, [], ◌∷◌, ◌++◌, ◌||◌, ◌==◌, includes, if◌then◌else◌}

pub data FoundIn : Type 0 where
  branch description title : FoundIn

pub record CorrelationSource : Type 0 where
  pub ticket_key : String
  pub found_in : FoundIn

pub record PrJiraCorrelation : Type 0 where
  pub ticket_keys : List String
  pub sources : List CorrelationSource

-- `set.add(key)`
abbrev pub add_key : List String → String → List String
add_key keys key = if includes keys key then keys else keys ++ key ∷ []

unfoldable pub add_keys : List String → List String → List String
add_keys keys [] = keys
add_keys keys (key ∷ more) = add_keys (add_key keys key) more

-- `replace(/[/_-]/g, ' ')`; no `/` is left for the second replacement.
unfoldable pub normalize : String → String
normalize String.[] = ""
normalize (String.◌∷◌ c s) =
    String.◌∷◌ (if code c == b'/' || code c == b'_' || code c == b'-' then " " else c) (normalize s)

-- `matches text` are the matches of `TICKET_KEY_PATTERN` in a text, in order.
module _ (matches : String → List String) where
  abbrev pub extract_ticket_keys_from_branch : String → List String
  extract_ticket_keys_from_branch name =
      add_keys (add_keys [] (matches name)) (matches (normalize name))

  abbrev pub extract_ticket_keys_from_description : String → List String
  extract_ticket_keys_from_description text = add_keys [] (matches text)

  abbrev pub extract_ticket_keys_from_title : String → List String
  extract_ticket_keys_from_title text = add_keys [] (matches text)

  -- One of the loops: each key is a source, and is seen.
  unfoldable pub add_sources : FoundIn → List String → PrJiraCorrelation → PrJiraCorrelation
  add_sources found_in [] c = c
  add_sources found_in (key ∷ keys) c = add_sources found_in keys (record {
    ticket_keys = add_key c.ticket_keys key;
    sources = c.sources ++ record { ticket_key = key; found_in = found_in } ∷ [];
  })

  unfoldable pub correlate_pr_to_jira :
      (branch_name title_ description_ : String) → PrJiraCorrelation
  correlate_pr_to_jira branch_name title_ description_ =
      add_sources description (extract_ticket_keys_from_description description_) (
        add_sources title (extract_ticket_keys_from_title title_) (
          add_sources branch (extract_ticket_keys_from_branch branch_name)
            (record { ticket_keys = []; sources = [] })))
