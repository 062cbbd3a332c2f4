-- ===== src/Audit/Query/Slices.antt =====
-- plugins/audit-enterprise/src/query/query-method.ts: LIMIT and OFFSET as parts of a list.
use openclaw_enterprise.Common.{
  ℕ, zero, suc, ◌+◌, ◌-◌, ◌≤◌, min, List, [], ◌∷◌, ◌++◌, length, take, ◌≡◌, refl, ◌∙◌, ap, arith,
}

-- `xs.slice(n)`
abbrev pub drop {ℓ} : {A : Type ℓ} → ℕ → List A → List A
drop zero xs = xs
drop (suc n) [] = []
drop (suc n) (x ∷ xs) = drop n xs

module _ {E : Type 0} where
  pub take-drop : (n : ℕ) (xs : List E) → take n xs ++ drop n xs ≡ xs
  take-drop zero xs = refl
  take-drop (suc n) [] = refl
  take-drop (suc n) (x ∷ xs) = ap (λ ys. x ∷ ys) (take-drop n xs)

  pub drop-+ : (m n : ℕ) (xs : List E) → drop n (drop m xs) ≡ drop (m + n) xs
  drop-+ zero n xs = let same : n ≡ 0 + n = omega arith in ap (λ k. drop k xs) same
  drop-+ (suc m) zero [] = let same : suc m ≡ suc m + 0 = omega arith in ap (λ k. drop k []) same
  drop-+ (suc m) (suc n) [] =
      let same : suc (m + suc n) ≡ suc m + suc n = omega arith in ap (λ k. drop k []) same
  drop-+ (suc m) n (x ∷ xs) =
      let same : suc (m + n) ≡ suc m + n = omega arith in
      drop-+ m n xs ∙ ap (λ k. drop k (x ∷ xs)) same

  pub length-drop : (n : ℕ) (xs : List E) → length (drop n xs) ≡ length xs - n
  length-drop zero xs = omega arith
  length-drop (suc n) [] = omega arith
  length-drop (suc n) (x ∷ xs) = omega (arith, length-drop n xs)

  pub length-take : (n : ℕ) (xs : List E) → length (take n xs) ≡ min n (length xs)
  length-take zero xs = omega arith
  length-take (suc n) [] = omega arith
  length-take (suc n) (x ∷ xs) = omega (arith, length-take n xs)

  pub take_all : (n : ℕ) (xs : List E) → length xs ≤ n → take n xs ≡ xs
  take_all zero [] h = refl
  take_all zero (x ∷ xs) h = absurd (omega (arith, h))
  take_all (suc n) [] h = refl
  take_all (suc n) (x ∷ xs) h = ap (λ ys. x ∷ ys) (take_all n xs (omega (arith, h)))
