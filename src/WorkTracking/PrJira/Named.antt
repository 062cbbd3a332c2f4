-- ===== src/WorkTracking/PrJira/Named.antt =====
-- plugins/work-tracking/src/correlation/pr-jira.ts: which keys a pull request is correlated with.
use openclaw_enterprise.Common.{
  String, List, [], ◌∷◌, ◌++◌, true, includes, str_eq, eq_iff, In, here, there, Bool-cases, inl,
  inr, ◌≡◌, ◌⊎◌, ◌↔◌, sym,
}
use openclaw_enterprise.WorkTracking.PrJira.{
  FoundIn, branch, title, description, PrJiraCorrelation, normalize, add_key, add_keys, add_sources,
  extract_ticket_keys_from_branch, extract_ticket_keys_from_title,
  extract_ticket_keys_from_description, correlate_pr_to_jira,
}

In-append : (k : String) (xs ys : List String) → In k (xs ++ ys) ↔ (In k xs ⊎ In k ys)
In-append k [] ys = (λ m. inr m, λ m. elim m [ inl n ↦ elim n [ ] | inr n ↦ n ])
In-append k (x ∷ xs) ys = (
  λ m. elim m [
    | here e ↦ inl (here e)
    | there n ↦ elim ((In-append k xs ys).0 n) [ inl o ↦ inl (there o) | inr o ↦ inr o ]
  ],
  λ m. elim m [
    | inl n ↦ elim n [ here e ↦ here e | there o ↦ there ((In-append k xs ys).1 (inl o)) ]
    | inr n ↦ there ((In-append k xs ys).1 (inr n))
  ],
)

includes-In : (k : String) (ks : List String) → includes ks k ≡ true → In k ks
includes-In k [] h = cc
includes-In k (x ∷ xs) h = elim (Bool-cases (str_eq x k)) [
  | inl same ↦ here (sym ((eq_iff x k).0 same))
  | inr other ↦ let h' = rw other at h in there (includes-In k xs h')
]

add_key-In : (k key : String) (ks : List String) → In k (add_key ks key) ↔ (In k ks ⊎ (k ≡ key))
add_key-In k key ks = elim (Bool-cases (includes ks key)) [
  | inl known ↦
      rw known (λ m. inl m, λ m. elim m [ inl n ↦ n | inr e ↦ rw e (includes-In key ks known) ])
  | inr new ↦ rw new (
    λ m. elim ((In-append k ks (key ∷ [])).0 m) [
      | inl n ↦ inl n
      | inr n ↦ elim n [ here e ↦ inr e | there o ↦ elim o [ ] ]
    ],
    λ m. (In-append k ks (key ∷ [])).1 (elim m [ inl n ↦ inl n | inr e ↦ inr (here e) ]),
  )
]

add_keys-In :
    (k : String) (keys more : List String) → In k (add_keys keys more) ↔ (In k keys ⊎ In k more)
unfolding add_keys
add_keys-In k keys [] = (λ m. inl m, λ m. elim m [ inl n ↦ n | inr n ↦ elim n [ ] ])
add_keys-In k keys (key ∷ more) =
    let ih = add_keys-In k (add_key keys key) more in
    let one = add_key-In k key keys in
    (
      λ m. elim (ih.0 m) [
        | inl n ↦ elim (one.0 n) [ inl o ↦ inl o | inr e ↦ inr (here e) ]
        | inr n ↦ inr (there n)
      ],
      λ m. elim m [
        | inl n ↦ ih.1 (inl (one.1 (inl n)))
        | inr n ↦ elim n [ here e ↦ ih.1 (inl (one.1 (inr e))) | there o ↦ ih.1 (inr o) ]
      ],
    )

module _ (matches : String → List String) where
  add_sources-In :
      (k : String) (found_in : FoundIn) (keys : List String) (c : PrJiraCorrelation)
      → In k (add_sources matches found_in keys c).ticket_keys ↔ (In k c.ticket_keys ⊎ In k keys)
  unfolding add_sources
  add_sources-In k found_in [] c = (λ m. inl m, λ m. elim m [ inl n ↦ n | inr n ↦ elim n [ ] ])
  add_sources-In k found_in (key ∷ keys) c =
      let next : PrJiraCorrelation = record {
        ticket_keys = add_key c.ticket_keys key;
        sources = c.sources ++ record { ticket_key = key; found_in = found_in } ∷ [];
      } in
      let ih = add_sources-In k found_in keys next in
      let one = add_key-In k key c.ticket_keys in
      (
        λ m. elim (ih.0 m) [
          | inl n ↦ elim (one.0 n) [ inl o ↦ inl o | inr e ↦ inr (here e) ]
          | inr n ↦ inr (there n)
        ],
        λ m. elim m [
          | inl n ↦ ih.1 (inl (one.1 (inl n)))
          | inr n ↦ elim n [ here e ↦ ih.1 (inl (one.1 (inr e))) | there o ↦ ih.1 (inr o) ]
        ],
      )

  -- The pattern matches the key in the name of the branch, as it is or with its separators replaced,
  -- in the title or in the description.
  abbrev pub IsNamed : (branch_name title_ description_ k : String) → Type 0
  IsNamed branch_name title_ description_ k =
      (In k (matches branch_name) ⊎ In k (matches (normalize branch_name)))
      ⊎ (In k (matches title_) ⊎ In k (matches description_))

  from_nothing : {k : String} {B : Type 0} → (In k [] ⊎ B) → B
  from_nothing m = elim m [ inl n ↦ elim n [ ] | inr b ↦ b ]

  pub correlate_pr_to_jira-IsNamed :
      (branch_name title_ description_ k : String)
      → In k (correlate_pr_to_jira matches branch_name title_ description_).ticket_keys
        ↔ IsNamed branch_name title_ description_ k
  unfolding correlate_pr_to_jira
  correlate_pr_to_jira-IsNamed branch_name title_ description_ k =
      let from_branch = extract_ticket_keys_from_branch matches branch_name in
      let from_title = extract_ticket_keys_from_title matches title_ in
      let from_description = extract_ticket_keys_from_description matches description_ in
      let none_yet : PrJiraCorrelation = record { ticket_keys = []; sources = [] } in
      let c1 = add_sources matches branch from_branch none_yet in
      let c2 = add_sources matches title from_title c1 in
      let s1 = add_sources-In k branch from_branch none_yet in
      let s2 = add_sources-In k title from_title c1 in
      let s3 = add_sources-In k description from_description c2 in
      let b1 = add_keys-In k [] (matches branch_name) in
      let b2 =
        add_keys-In k (add_keys [] (matches branch_name)) (matches (normalize branch_name)) in
      let t1 = add_keys-In k [] (matches title_) in
      let d1 = add_keys-In k [] (matches description_) in
      (
        λ m. elim (s3.0 m) [
          | inl n ↦ elim (s2.0 n) [
            | inl o ↦ elim (b2.0 (from_nothing (s1.0 o))) [
              | inl p ↦ inl (inl (from_nothing (b1.0 p)))
              | inr p ↦ inl (inr p)
            ]
            | inr o ↦ inr (inl (from_nothing (t1.0 o)))
          ]
          | inr n ↦ inr (inr (from_nothing (d1.0 n)))
        ],
        λ m. elim m [
          | inl n ↦ elim n [
            | inl o ↦ s3.1 (inl (s2.1 (inl (s1.1 (inr (b2.1 (inl (b1.1 (inr o)))))))))
            | inr o ↦ s3.1 (inl (s2.1 (inl (s1.1 (inr (b2.1 (inr o)))))))
          ]
          | inr n ↦ elim n [
            | inl o ↦ s3.1 (inl (s2.1 (inr (t1.1 (inr o)))))
            | inr o ↦ s3.1 (inr (d1.1 (inr o)))
          ]
        ],
      )
