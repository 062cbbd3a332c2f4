-- ===== src/Audit/Query/Order.antt =====
-- plugins/audit-enterprise/src/query/query-method.ts: the order of the entries that a query asks for.
use openclaw_enterprise.Common.{
  ℕ, ◌<◌, List, [], ◌∷◌, All, In, here, there, ◌≡◌, refl, sym, ◌∙◌, ap, arith,
}

module _ {E : Type 0} (time : E → ℕ) where
  -- From the newest entry to the oldest, no two of them of the same time.
  abbrev pub IsNewestFirst : List E → Type 0
  IsNewestFirst [] = Unit
  IsNewestFirst (x ∷ xs) = All (λ y. time y < time x) xs × IsNewestFirst xs

  All-In : (P : E → Type 0) (x : E) (xs : List E) → All P xs → In x xs → P x
  All-In P x [] h m = elim m [ ]
  All-In P x (y ∷ ys) h (here e) = rw e h.0
  All-In P x (y ∷ ys) h (there m) = All-In P x ys h.1 m

  -- No entry comes twice in the order of their times.
  head_once : (x y : E) (xs : List E) → IsNewestFirst (x ∷ xs) → In y xs → y ≡ x → (z : ℕ) × (z < z)
  head_once x y xs h m e =
      let below = All-In (λ (y : E). time y < time x) y xs h.0 m in
      (time x, ground (arith, below, ap time e))

  tail_within :
      (x y e : E) (xs ys : List E)
      → x ≡ y
      → IsNewestFirst (x ∷ xs)
      → In e xs
      → In e (y ∷ ys)
      → In e ys
  tail_within x y e xs ys same h m (there n) = n
  tail_within x y e xs ys same h m (here is) =
      let (z, less) = head_once x e xs h m (is ∙ sym same) in absurd (omega (arith, less))

  heads_same :
      (x y : E) (xs ys : List E)
      → IsNewestFirst (x ∷ xs)
      → IsNewestFirst (y ∷ ys)
      → In x (y ∷ ys)
      → In y (x ∷ xs)
      → x ≡ y
  heads_same x y xs ys h k (here e) n = e
  heads_same x y xs ys h k (there m) (here e) = sym e
  heads_same x y xs ys h k (there m) (there n) =
      let above = All-In (λ (e : E). time e < time y) x ys k.0 m in
      let below = All-In (λ (e : E). time e < time x) y xs h.0 n in
      absurd (omega (arith, above, below))

  -- One list holds the entries of another.
  abbrev pub IsWithin : List E → List E → Type 0
  IsWithin xs ys = (e : E) → In e xs → In e ys

  -- The times leave no choice of an order.
  pub order_unique :
      (xs ys : List E)
      → IsNewestFirst xs
      → IsNewestFirst ys
      → IsWithin xs ys
      → IsWithin ys xs
      → xs ≡ ys
  order_unique [] [] h k a b = refl
  order_unique [] (y ∷ ys) h k a b = absurd (elim (b y (here refl)) [ ])
  order_unique (x ∷ xs) [] h k a b = absurd (elim (a x (here refl)) [ ])
  order_unique (x ∷ xs) (y ∷ ys) h k a b =
      let same = heads_same x y xs ys h k (a x (here refl)) (b y (here refl)) in
      let rest =
        order_unique xs ys h.1 k.1 (λ e m. tail_within x y e xs ys same h m (a e (there m)))
          (λ e m. tail_within y x e ys xs (sym same) k m (b e (there m))) in
      rw same (ap (λ zs. y ∷ zs) rest)
