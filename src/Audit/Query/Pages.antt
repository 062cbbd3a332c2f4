-- ===== src/Audit/Query/Pages.antt =====
-- plugins/audit-enterprise/src/query/query-method.ts: reading page after page.
use openclaw_enterprise.Common.{
  ℕ, zero, suc, ◌+◌, ◌-◌, ◌*◌, ◌≤◌, ◌<◌, min, ltb, ltb→lt, pos, ◌+ℤ◌, ltb_ℤ, List, ◌++◌, length,
  take, Option, none, some, get_or, if◌then◌else◌, Bool-cases, inl, inr, ◌≡◌, refl, sym, ◌∙◌, ap,
  arith,
}
use openclaw_enterprise.Audit.Query.{
  AuditQueryParams, Database, page_size_of, page_of, where_of, where_clause, audit_query,
}
use openclaw_enterprise.Audit.Query.Slices.{
  drop, take-drop, drop-+, length-drop, length-take, take_all,
}
use openclaw_enterprise.Audit.Query.Order.{IsNewestFirst, IsWithin, order_unique}

-- The same query for a page.
abbrev pub on_page : AuditQueryParams → ℕ → AuditQueryParams
on_page p k = record p { offset = none; page = some (pos k) }

pos-+ℤ : (a b : ℕ) → pos a +ℤ pos b ≡ pos (a + b)
unfolding ◌+ℤ◌
pos-+ℤ a b = ground arith

-- The page size is between 1 and 1000.
page_size_of-bound : (p : AuditQueryParams) → (1 ≤ page_size_of p) × (page_size_of p ≤ 1000)
unfolding page_size_of
page_size_of-bound p = ground arith

page_of-on_page : (p : AuditQueryParams) (k : ℕ) → 1 ≤ k → page_of (on_page p k) ≡ k
page_of-on_page p k h = ground (arith, h)

next_offset : (k size : ℕ) → 1 ≤ k → (k - 1) * size + size ≡ (k + 1 - 1) * size
next_offset zero size h = absurd (omega (arith, h))
next_offset (suc j) size h =
    let before : suc j - 1 ≡ j = omega arith in
    let after : suc j + 1 - 1 ≡ j + 1 = omega arith in rw before (rw after (grind arith))

more_left :
    (o n size total : ℕ)
    → n ≡ min size (total - o)
    → 1 ≤ size
    → ltb_ℤ (pos o +ℤ pos n) (pos total) ≡ ltb size (total - o)
more_left o n size total e h = rw (pos-+ℤ o n) (ground (arith, e, h))

module _ {E : Type 0} where
  -- The database answers with the parts of this list.
  abbrev IsSelected : Database E → AuditQueryParams → List E → Type 0
  IsSelected db p xs =
      (limit offset : ℕ)
      → db.select_where (where_clause (where_of p)) (where_of p).values "timestamp DESC" limit
          (pos offset)
        ≡ take limit (drop offset xs)

  abbrev IsCounted : Database E → AuditQueryParams → List E → Type 0
  IsCounted db p xs =
      db.count_where (where_clause (where_of p)) (where_of p).values ≡ some (length xs)

  module _ (time : E → ℕ) where
    -- What a database does that holds these entries under the conditions of the query: it counts
    -- them, and each question for rows is answered with a part of them in an order by time.
    pub record Holds (db : Database E) (p : AuditQueryParams) (xs : List E) : Type 0 where
      pub count : db.count_where (where_clause (where_of p)) (where_of p).values ≡ some (length xs)
      pub ordered :
          (limit offset : ℕ)
          → (ys : List E) × IsNewestFirst time ys
            × IsWithin time xs ys
            × IsWithin time ys xs
            × (db.select_where
                  (where_clause (where_of p))
                  (where_of p).values
                  "timestamp DESC"
                  limit
                  (pos offset)
                ≡ take limit (drop offset ys))

    Holds-select :
        (db : Database E) (p : AuditQueryParams) (xs : List E)
        → IsNewestFirst time xs
        → Holds db p xs
        → IsSelected db p xs
    Holds-select db p xs sorted h limit offset =
        let (ys, sorted', within, all, answered) = h.ordered limit offset in
        let same = order_unique time ys xs sorted' sorted all within in
        answered ∙ ap (λ zs. take limit (drop offset zs)) same

  abbrev before_rest : List E → Option (List E) → Option (List E)
  before_rest es none = none
  before_rest es (some rest) = some (es ++ rest)

  -- A reader that asks for page after page while there is more; `none` where the fuel runs out.
  unfoldable pub read_pages : ℕ → Database E → AuditQueryParams → ℕ → Option (List E)
  read_pages zero db p k = none
  read_pages (suc fuel) db p k =
      let r = audit_query db (on_page p k) in
      let rest = read_pages fuel db p (k + 1) in
      if r.has_more then before_rest r.entries rest else some r.entries

  -- The entries of a page, and whether there is more.
  audit_query-page :
      (db : Database E) (p : AuditQueryParams) (xs : List E) (k : ℕ)
      → IsSelected db p xs
      → 1 ≤ k
      → (audit_query db (on_page p k)).entries
        ≡ take (page_size_of p) (drop ((k - 1) * page_size_of p) xs)
  unfolding audit_query page_size_of
  audit_query-page db p xs k h first =
      let size = page_size_of p in
      let start = page_of (on_page p k) in
      h size ((start - 1) * size)
      ∙ ap (λ j. take size (drop ((j - 1) * size) xs)) (page_of-on_page p k first)

  audit_query-has_more :
      (db : Database E) (p : AuditQueryParams) (xs : List E) (k : ℕ)
      → IsCounted db p xs
      → IsSelected db p xs
      → 1 ≤ k
      → (audit_query db (on_page p k)).has_more
        ≡ ltb (page_size_of p) (length (drop ((k - 1) * page_size_of p) xs))
  unfolding audit_query page_size_of
  audit_query-has_more db p xs k counted_ h first =
      let size = page_size_of p in
      let start = (page_of (on_page p k) - 1) * size in
      let entries =
        db.select_where (where_clause (where_of p)) (where_of p).values "timestamp DESC" size
          (pos start) in
      let total : get_or (db.count_where (where_clause (where_of p)) (where_of p).values) 0
          ≡ length xs =
        rw counted_ refl in
      let counted = ap length (audit_query-page db p xs k h first) in
      let taken = length-take size (drop ((k - 1) * size) xs) in
      let left = length-drop ((k - 1) * size) xs in
      let start_is : start ≡ (k - 1) * size =
        ap (λ j. (j - 1) * size) (page_of-on_page p k first) in
      let here_ : length entries ≡ min size (length xs - start) =
        omega (arith, counted, taken, left, start_is) in
      let rest_is : length xs - start ≡ length (drop ((k - 1) * size) xs) =
        omega (arith, left, start_is) in
      ap (λ n. ltb_ℤ (pos start +ℤ pos (length entries)) (pos n)) total
      ∙ more_left start (length entries) size (length xs) here_ (page_size_of-bound p).0
      ∙ ap (λ n. ltb size n) rest_is

  read_pages-drop :
      (fuel : ℕ) (db : Database E) (p : AuditQueryParams) (xs : List E) (k : ℕ)
      → IsCounted db p xs
      → IsSelected db p xs
      → 1 ≤ k
      → length (drop ((k - 1) * page_size_of p) xs) < fuel
      → read_pages fuel db p k ≡ some (drop ((k - 1) * page_size_of p) xs)
  unfolding read_pages
  read_pages-drop zero db p xs k counted_ h first bound = absurd (omega (arith, bound))
  read_pages-drop (suc fuel) db p xs k counted_ h first bound =
      let size = page_size_of p in
      let rest = drop ((k - 1) * size) xs in
      let page = audit_query-page db p xs k h first in
      let more = audit_query-has_more db p xs k counted_ h first in
      let next : drop size rest ≡ drop ((k + 1 - 1) * size) xs =
        drop-+ ((k - 1) * size) size xs ∙ ap (λ n. drop n xs) (next_offset k size first) in
      elim (Bool-cases (ltb size (length rest))) [
        | inl over ↦
            let shorter = length-drop size rest in
            let same = ap length next in
            let positive = (page_size_of-bound p).0 in
            let ih =
              read_pages-drop fuel db p xs (k + 1) counted_ h (omega arith)
                (omega (arith, bound, shorter, same, positive, ltb→lt size (length rest) over)) in
            let goes_on = more ∙ over in
            rw goes_on (
              rw ih (
                rw page
                  (ap some (ap (λ es. take size rest ++ es) (sym next) ∙ take-drop size rest))))
        | inr done ↦
            let ends = more ∙ done in
            let all = take_all size rest (ground (arith, done)) in rw ends (rw page (ap some all))
      ]

  -- Where no two entries have the same time, and each answer of the database is a part of the entries
  -- from the newest to the oldest: reading the pages from the first one on while `has_more` is true
  -- ends, and gives each entry once, from the newest to the oldest; and the size of a page is between
  -- 1 and 1000, whatever limit or page size is asked for.
  pub read_pages_complete :
      (time : E → ℕ) (db : Database E) (p : AuditQueryParams) (xs : List E)
      → IsNewestFirst time xs
      → Holds time db p xs
      → (read_pages (suc (length xs)) db p 1 ≡ some xs)
        × (1 ≤ page_size_of p)
        × (page_size_of p ≤ 1000)
  read_pages_complete time db p xs sorted h =
      let (low, high) = page_size_of-bound p in
      let none_before : (1 - 1) * page_size_of p ≡ 0 = omega arith in
      let all : drop ((1 - 1) * page_size_of p) xs ≡ xs = ap (λ n. drop n xs) none_before in
      let length_all = ap length all in
      (
        read_pages-drop (suc (length xs)) db p xs 1 h.count (Holds-select time db p xs sorted h)
              (omega arith) (omega (arith, length_all))
            ∙ ap some all,
        low,
        high,
      )
