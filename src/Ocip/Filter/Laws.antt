-- ===== src/Ocip/Filter/Laws.antt =====
-- The filter lets through what both sides accept, and accounts for the rest.
use openclaw_enterprise.Common.{
  ◌+◌, ◌≤◌, List, [], ◌∷◌, ◌++◌, Bool, true, not, ◌&&◌, ◌≡◌, refl, sym, ◌∙◌, arith, length,
  length-append, select, All, if◌then◌else◌, Bool-cases, inl, inr,
}
use mathlib.Core.List.{append-nil, append_assoc}
use openclaw_enterprise.Shared.Types.{DataClassificationLevel}
use openclaw_enterprise.Shared.Levels.{classification_index, includes_level}
use openclaw_enterprise.Ocip.Filter.{
  ClassifiableDataItem, FilterResult, is_more_sensitive, filter_item, filter_items, filter,
}

module _ (receiver_can_share : List DataClassificationLevel)
    (exchange : DataClassificationLevel) where
  -- An item at or below the exchange's level, of a level that the receiver takes.
  abbrev pub passes : ClassifiableDataItem → Bool
  passes item =
      not (is_more_sensitive item.classification exchange)
      && includes_level receiver_can_share item.classification

  filter_item-allowed :
      (item : ClassifiableDataItem) (r : FilterResult)
      → (filter_item receiver_can_share exchange item r).allowed
        ≡ (if passes item then r.allowed ++ item ∷ [] else r.allowed)
  unfolding filter_item
  filter_item-allowed item r = ground arith

  filter_item-withheld :
      (item : ClassifiableDataItem) (r : FilterResult)
      → length (filter_item receiver_can_share exchange item r).withheld
        ≡ (if passes item then length r.withheld else length r.withheld + 1)
  unfolding filter_item
  filter_item-withheld item r = elim (Bool-cases (is_more_sensitive item.classification exchange)) [
    | inl e ↦ rw e (length-append r.withheld _)
    | inr e ↦ rw e (elim (Bool-cases (includes_level receiver_can_share item.classification)) [
      | inl f ↦ rw f refl
      | inr f ↦ rw f (length-append r.withheld _)
    ])
  ]

  filter_items-allowed :
      (items : List ClassifiableDataItem) (r : FilterResult)
      → (filter_items receiver_can_share exchange items r).allowed
        ≡ r.allowed ++ select passes items
  unfolding filter_items
  filter_items-allowed [] r = sym (append-nil r.allowed)
  filter_items-allowed (item ∷ items) r =
      filter_items-allowed items (filter_item receiver_can_share exchange item r)
      ∙ rw (filter_item-allowed item r) (elim (Bool-cases (passes item)) [
        | inl e ↦ rw e (append_assoc r.allowed (item ∷ []) (select passes items))
        | inr e ↦ rw e refl
      ])

  filter_items-count :
      (items : List ClassifiableDataItem) (r : FilterResult)
      → length (filter_items receiver_can_share exchange items r).withheld
          + length (select passes items)
        ≡ length r.withheld + length items
  unfolding filter_items
  filter_items-count [] r = refl
  filter_items-count (item ∷ items) r =
      let next = filter_item receiver_can_share exchange item r in
      let ih = filter_items-count items next in
      let here = filter_item-withheld item r in
      elim (Bool-cases (passes item)) [
        | inl e ↦ let here' = rw e at here in rw e (omega (arith, ih, here'))
        | inr e ↦ let here' = rw e at here in rw e (omega (arith, ih, here'))
      ]

-- The filter keeps, in order, exactly the items at or below the exchange's classification whose
-- level the receiver takes, and writes one withheld record for every other item.
pub filter_lem :
    (items : List ClassifiableDataItem) (receiver_can_share : List DataClassificationLevel)
    (exchange : DataClassificationLevel)
    → ((filter items receiver_can_share exchange).allowed
        ≡ select (passes receiver_can_share exchange) items)
      × (length (filter items receiver_can_share exchange).withheld
            + length (filter items receiver_can_share exchange).allowed
          ≡ length items)
unfolding filter
filter_lem items receiver_can_share exchange =
    let start : FilterResult = record { allowed = []; withheld = [] } in
    let kept = filter_items-allowed receiver_can_share exchange items start in
    (kept, rw kept (omega (arith, filter_items-count receiver_can_share exchange items start)))

All-passes :
    (receiver_can_share : List DataClassificationLevel) (exchange : DataClassificationLevel)
    (items : List ClassifiableDataItem)
    → All
        (λ item.
          (classification_index item.classification ≤ classification_index exchange)
          × (includes_level receiver_can_share item.classification ≡ true))
        (select (passes receiver_can_share exchange) items)
All-passes receiver_can_share exchange [] = tt
All-passes receiver_can_share exchange (item ∷ items) =
    let rest = All-passes receiver_can_share exchange items in
    elim (Bool-cases (passes receiver_can_share exchange item)) [
      | inl e ↦ rw e ((ground arith, ground arith), rest)
      | inr e ↦ rw e rest
    ]

-- Nothing above the exchange's classification leaves, and nothing of a level that the receiver
-- does not take.
pub filter-allowed-All :
    (items : List ClassifiableDataItem) (receiver_can_share : List DataClassificationLevel)
    (exchange : DataClassificationLevel)
    → All
        (λ item.
          (classification_index item.classification ≤ classification_index exchange)
          × (includes_level receiver_can_share item.classification ≡ true))
        (filter items receiver_can_share exchange).allowed
filter-allowed-All items receiver_can_share exchange =
    rw ((filter_lem items receiver_can_share exchange).0)
      (All-passes receiver_can_share exchange items)
