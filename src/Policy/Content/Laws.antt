-- ===== src/Policy/Content/Laws.antt =====
-- What the policy parser promises.
use openclaw_enterprise.Common.{
  ◌≡◌, refl, List, Option, ◌||◌, [], ◌∷◌, String, none, true, some, HasUniqueKeys,
  insert-HasUniqueKeys, inl, inr, Bool-cases,
}
use openclaw_enterprise.Common.Text.{is_empty, starts_with}
use openclaw_enterprise.Policy.Merge.{bool, num, str, arr}
use openclaw_enterprise.Policy.Content.{
  ParseState, opened, push_to, flush_to, set_pair, split_lines, push_item, flush_array, set_entry,
  parse_pair, parse_line, parse_lines, parse_policy_content, split_colon, trim,
}

-- Every part of a round keeps the keys distinct.
push_to-HasUniqueKeys :
    (o : Option (String × List String)) (item : String) (st : ParseState)
    → HasUniqueKeys st.result
    → HasUniqueKeys (push_to o item st).result
unfolding push_to
push_to-HasUniqueKeys none item st h = h
push_to-HasUniqueKeys (some p) item st h = h

flush_to-HasUniqueKeys :
    (o : Option (String × List String)) (st : ParseState)
    → HasUniqueKeys st.result
    → HasUniqueKeys (flush_to o st).result
unfolding flush_to
flush_to-HasUniqueKeys none st h = h
flush_to-HasUniqueKeys (some (key, array)) st h = insert-HasUniqueKeys key (arr array) st.result h

set_entry-HasUniqueKeys :
    (key value : String) (st : ParseState)
    → HasUniqueKeys st.result
    → HasUniqueKeys (set_entry key value st).result
unfolding set_entry
set_entry-HasUniqueKeys key value st h = elim (Bool-cases (is_empty value)) [
  | inl e ↦ rw e h
  | inr e ↦ rw e (insert-HasUniqueKeys key _ st.result h)
]

set_pair-HasUniqueKeys :
    (o : Option (String × String)) (st : ParseState)
    → HasUniqueKeys st.result
    → HasUniqueKeys (set_pair o st).result
unfolding set_pair
set_pair-HasUniqueKeys none st h = h
set_pair-HasUniqueKeys (some (before, behind)) st h = set_entry-HasUniqueKeys _ _ st h

parse_line-HasUniqueKeys :
    (st : ParseState) (line : String)
    → HasUniqueKeys st.result
    → HasUniqueKeys (parse_line st line).result
unfolding parse_line parse_pair push_item flush_array
parse_line-HasUniqueKeys st line h =
    elim (Bool-cases (is_empty (trim line) || starts_with (trim line) "#")) [
      | inl e ↦ rw e h
      | inr e ↦ rw e (elim (Bool-cases (starts_with (trim line) "- ")) [
        | inl f ↦ rw f (push_to-HasUniqueKeys _ _ st h)
        | inr f ↦ rw f (
            set_pair-HasUniqueKeys (split_colon (trim line)) (flush_array st)
              (flush_to-HasUniqueKeys (opened st.current_key st.current_array) st h))
      ])
    ]

parse_lines-HasUniqueKeys :
    (st : ParseState) (lines : List String)
    → HasUniqueKeys st.result
    → HasUniqueKeys (parse_lines st lines).result
unfolding parse_lines
parse_lines-HasUniqueKeys st [] h = h
parse_lines-HasUniqueKeys st (line ∷ lines) h =
    parse_lines-HasUniqueKeys (parse_line st line) lines (parse_line-HasUniqueKeys st line h)

-- A parsed policy holds no key twice.
pub parse_policy_content-HasUniqueKeys :
    (content : String) → HasUniqueKeys (parse_policy_content content)
unfolding parse_policy_content flush_array
parse_policy_content-HasUniqueKeys content =
    flush_to-HasUniqueKeys _ _ (parse_lines-HasUniqueKeys _ (split_lines content) tt)

parse_test :
    parse_policy_content "# limits\nmax: 10\nallowed:\n  - a\n  - b c\nstrict: true\nnote: x: y\n"
    ≡ ("max", num 10)
      ∷ ("allowed", arr ("a" ∷ "b c" ∷ []))
      ∷ ("strict", bool true)
      ∷ ("note", str "x: y")
      ∷ []
unfolding parse_policy_content
parse_test = refl
