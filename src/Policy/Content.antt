-- ===== src/Policy/Content.antt =====
-- plugins/policy-engine/src/hierarchy/resolver.ts: `parsePolicyContent`, the parser of the
-- YAML-like policy texts. A number is read exactly, which the source's doubles do below 2 ^ 53.
-- A key `__proto__`, which sets an object's prototype, is kept as any other key.
pub mod Laws
use Prim.Native.Char.{Char, code}
use Prim.Native.String
use openclaw_enterprise.Common.{
  ℕ, suc, zero, String, List, [], ◌∷◌, ◌++◌, Bool, true, false, not, ◌&&◌, ◌||◌, Option, none, some,
  leb, ◌==◌, if◌then◌else◌, str_eq, insert,
}
use openclaw_enterprise.Common.Text.{starts_with, value_from, is_empty}
use openclaw_enterprise.Policy.Merge.{PolicyValue, bool, num, str, arr, PolicyRecord}

-- The white space that `trim` removes.
abbrev is_space : ℕ → Bool
is_space c =
    leb 9 c && leb c 13
    || c == 32
    || c == 160
    || c == 0x1680
    || leb 0x2000 c && leb c 0x200a
    || c == 0x2028
    || c == 0x2029
    || c == 0x202f
    || c == 0x205f
    || c == 0x3000
    || c == 0xfeff

unfoldable pub trim_start : String → String
trim_start String.[] = ""
trim_start (String.◌∷◌ c s) = if is_space (code c) then trim_start s else String.◌∷◌ c s

unfoldable pub trim_end : String → String
trim_end String.[] = ""
trim_end (String.◌∷◌ c s) =
    let rest = trim_end s in if is_space (code c) && is_empty rest then "" else String.◌∷◌ c rest

abbrev pub trim : String → String
trim s = trim_end (trim_start s)

-- `content.split('\n')`.
abbrev push_front : Char → List String → List String
push_front c [] = String.◌∷◌ c "" ∷ []
push_front c (s ∷ ss) = String.◌∷◌ c s ∷ ss

unfoldable pub split_lines : String → List String
split_lines String.[] = "" ∷ []
split_lines (String.◌∷◌ c s) =
    if code c == 10 then "" ∷ split_lines s else push_front c (split_lines s)

-- The texts before and behind the first colon; `none` where `indexOf(':')` is -1.
unfoldable pub split_colon : String → Option (String × String)
split_colon String.[] = none
split_colon (String.◌∷◌ c s) = if code c == b':' then some ("", s) else elim (split_colon s) [
  | none ↦ none
  | some (before, behind) ↦ some (String.◌∷◌ c before, behind)
]

-- `s.slice(n)`.
abbrev drop_chars : ℕ → String → String
drop_chars zero s = s
drop_chars (suc n) String.[] = ""
drop_chars (suc n) (String.◌∷◌ c s) = drop_chars n s

-- `/^\d+$/.test(s)`.
abbrev all_digits : String → Bool
all_digits String.[] = true
all_digits (String.◌∷◌ c s) = leb b'0' (code c) && leb (code c) b'9' && all_digits s

unfoldable pub parse_scalar : String → PolicyValue
unfolding value_from
parse_scalar value =
    if str_eq value "true"
    then bool true
    else if str_eq value "false"
    then bool false
    else if not (is_empty value) && all_digits value
    then num (value_from 0 value)
    else str value

-- The variables of the loop.
pub record ParseState : Type 0 where
  pub result : PolicyRecord
  pub current_key : Option String
  pub current_array : Option (List String)

-- `if (currentKey && currentArray)`: an empty key counts as none.
opened : Option String → Option (List String) → Option (String × List String)
opened (some key) (some array) = if is_empty key then none else some (key, array)
opened _ _ = none

push_to : Option (String × List String) → String → ParseState → ParseState
push_to none item st = st
push_to (some (key, array)) item st = record st { current_array = some (array ++ item ∷ []) }

push_item : String → ParseState → ParseState
unfolding opened push_to
push_item item st = push_to (opened st.current_key st.current_array) item st

flush_to : Option (String × List String) → ParseState → ParseState
flush_to none st = st
flush_to (some (key, array)) st = record st {
  result = insert key (arr array) st.result;
  current_array = none;
}

flush_array : ParseState → ParseState
unfolding opened flush_to
flush_array st = flush_to (opened st.current_key st.current_array) st

set_entry : String → String → ParseState → ParseState
unfolding parse_scalar
set_entry key value st =
    if is_empty value
    then record st { current_key = some key; current_array = some [] }
    else record st { result = insert key (parse_scalar value) st.result; current_key = none }

set_pair : Option (String × String) → ParseState → ParseState
set_pair none st = st
set_pair (some (before, behind)) st = set_entry (trim before) (trim behind) st

-- The part of a round behind the flush.
parse_pair : String → ParseState → ParseState
unfolding set_pair set_entry split_colon
parse_pair trimmed st = set_pair (split_colon trimmed) st

-- One round of the loop.
parse_line : ParseState → String → ParseState
unfolding trim_start trim_end parse_pair push_item flush_array starts_with
parse_line st line =
    let trimmed = trim line in
    if is_empty trimmed || starts_with trimmed "#"
    then st
    else if starts_with trimmed "- "
    then push_item (trim (drop_chars 2 trimmed)) st
    else parse_pair trimmed (flush_array st)

parse_lines : ParseState → List String → ParseState
unfolding parse_line
parse_lines st [] = st
parse_lines st (line ∷ lines) = parse_lines (parse_line st line) lines

-- The second flush, behind the loop, leaves `currentArray`; nothing reads it later.
unfoldable pub parse_policy_content : String → PolicyRecord
unfolding parse_lines split_lines flush_array insert
parse_policy_content content =
    (flush_array (
      parse_lines (record { result = []; current_key = none; current_array = none })
        (split_lines content))).result
