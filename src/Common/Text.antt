-- ===== src/Common/Text.antt =====
-- Texts: templates, joining, the decimal print of a number, and the string methods of the source
-- that are defined by comparing characters (`includes`, `startsWith`).
use Prim.Native.Char.{Char, code}
use Prim.Native.Nat.{ℕ, zero, suc, ◌+◌, ◌-◌, ◌*◌, ◌/◌, ◌%◌, ◌<◌}
use Prim.Native.String
use Prim.Native.String.{String}
use mathlib.Core.Path.{◌≡◌, refl, sym, ap, ◌∙◌}
use mathlib.Core.Bool.{Bool, true, false, ◌||◌, ◌&&◌}
use mathlib.Core.Logic.{◌≢◌, inl, inr}
use mathlib.Core.List.{List, [], ◌∷◌}
use native.Mathlib.Omega.{arith}
use text.Mathlib.TextLemmas.{append_cancel_left}
use openclaw_enterprise.Common.Tests.{ltb, leb, ◌==◌, if◌then◌else◌, Bool-cases}
use openclaw_enterprise.Common.Int.{ℤ, pos, negsuc}

-- A template literal, as the list of its parts.
unfoldable pub template : List String → String
template [] = ""
template (s ∷ ss) = String.◌++◌ s (template ss)

-- `xs.join(sep)`.
unfoldable pub join : String → List String → String
join sep [] = ""
join sep (s ∷ []) = s
join sep (s ∷ t ∷ ts) = String.◌++◌ s (String.◌++◌ sep (join sep (t ∷ ts)))

abbrev pub is_empty : String → Bool
is_empty String.[] = true
is_empty (String.◌∷◌ c s) = false

pub is_empty-eq : (s : String) → is_empty s ≡ true → s ≡ ""
is_empty-eq String.[] h = refl
is_empty-eq (String.◌∷◌ c s) h = cc

pub is_empty-ne : (s : String) → is_empty s ≡ false → s ≢ ""
is_empty-ne s h e = let h' = rw e at h in cc

-- `s.startsWith(p)`.
unfoldable pub starts_with : String → String → Bool
starts_with s String.[] = true
starts_with String.[] (String.◌∷◌ d p) = false
starts_with (String.◌∷◌ c s) (String.◌∷◌ d p) = code c == code d && starts_with s p

-- `s.includes(p)`.
unfoldable pub has_part : String → String → Bool
unfolding starts_with
has_part String.[] p = starts_with String.[] p
has_part (String.◌∷◌ c s) p = starts_with (String.◌∷◌ c s) p || has_part s p

-- A character before the first text of a list.
abbrev push_char : Char → List String → List String
push_char c [] = String.◌∷◌ c "" ∷ []
push_char c (s ∷ ss) = String.◌∷◌ c s ∷ ss

-- `s.split(c)` for the character with this code.
unfoldable pub split : ℕ → String → List String
split sep String.[] = "" ∷ []
split sep (String.◌∷◌ c s) =
    let rest = split sep s in if code c == sep then "" ∷ rest else push_char c rest

-- JavaScript's white space and line terminators.
abbrev pub is_space : ℕ → Bool
is_space c =
    leb 9 c && leb c 13
    || c == 32
    || c == 160
    || c == 5760
    || leb 8192 c && leb c 8202
    || c == 8232
    || c == 8233
    || c == 8239
    || c == 8287
    || c == 12288
    || c == 65279

unfoldable pub trim_start : String → String
trim_start String.[] = ""
trim_start (String.◌∷◌ c s) =
    let rest = trim_start s in if is_space (code c) then rest else String.◌∷◌ c s

unfoldable pub trim_end : String → String
trim_end String.[] = ""
trim_end (String.◌∷◌ c s) =
    let rest = trim_end s in if is_space (code c) && is_empty rest then "" else String.◌∷◌ c rest

-- `s.trim()`.
unfoldable pub trim : String → String
trim s = trim_end (trim_start s)

-- The character of a decimal digit.
abbrev digit : ℕ → Char
digit zero = "0"
digit (suc zero) = "1"
digit (suc (suc zero)) = "2"
digit (suc (suc (suc zero))) = "3"
digit (suc (suc (suc (suc zero)))) = "4"
digit (suc (suc (suc (suc (suc zero))))) = "5"
digit (suc (suc (suc (suc (suc (suc zero)))))) = "6"
digit (suc (suc (suc (suc (suc (suc (suc zero))))))) = "7"
digit (suc (suc (suc (suc (suc (suc (suc (suc zero)))))))) = "8"
digit _ = "9"

-- The last digits first, on fuel: a number has no more digits than its size.
decimal_from : ℕ → ℕ → String → String
decimal_from zero n rest = rest
decimal_from (suc f) n rest =
    let more = decimal_from f (n / 10) (String.◌∷◌ (digit (n % 10)) rest) in
    if ltb n 10 then String.◌∷◌ (digit n) rest else more

-- `${n}`.
unfoldable pub decimal : ℕ → String
unfolding decimal_from
decimal n = decimal_from (suc n) n ""

-- `${z}`.
unfoldable pub decimal_ℤ : ℤ → String
unfolding decimal
decimal_ℤ (pos n) = decimal n
decimal_ℤ (negsuc n) = String.◌++◌ "-" (decimal (suc n))

-- The value that a text of digits is read to, after the digits in `acc`.
unfoldable pub value_from : ℕ → String → ℕ
value_from acc String.[] = acc
value_from acc (String.◌∷◌ c s) = value_from (acc * 10 + (code c - b'0')) s

code-digit : (d : ℕ) → d < 10 → code (digit d) ≡ b'0' + d
code-digit zero h = refl
code-digit (suc zero) h = refl
code-digit (suc (suc zero)) h = refl
code-digit (suc (suc (suc zero))) h = refl
code-digit (suc (suc (suc (suc zero)))) h = refl
code-digit (suc (suc (suc (suc (suc zero))))) h = refl
code-digit (suc (suc (suc (suc (suc (suc zero)))))) h = refl
code-digit (suc (suc (suc (suc (suc (suc (suc zero))))))) h = refl
code-digit (suc (suc (suc (suc (suc (suc (suc (suc zero)))))))) h = refl
code-digit (suc (suc (suc (suc (suc (suc (suc (suc (suc zero))))))))) h = refl
code-digit (suc (suc (suc (suc (suc (suc (suc (suc (suc (suc n)))))))))) h = absurd (omega arith)

-- A digit that is put in front is read first.
value_from-digit :
    (acc d : ℕ) (rest : String)
    → d < 10
    → value_from acc (String.◌∷◌ (digit d) rest) ≡ value_from (acc * 10 + d) rest
unfolding value_from
value_from-digit acc d rest h = ap (λ v. value_from v rest) (omega (arith, code-digit d h))

value_from-decimal_from :
    (f n : ℕ) (rest : String) → n < f → value_from 0 (decimal_from f n rest) ≡ value_from n rest
unfolding decimal_from
value_from-decimal_from zero n rest h = absurd (omega arith)
value_from-decimal_from (suc f) n rest h = elim (Bool-cases (ltb n 10)) [
  | inl small ↦
      rw small
        (value_from-digit 0 n rest (ground arith) ∙ ap (λ v. value_from v rest) (omega arith))
  | inr large ↦ rw large (
      value_from-decimal_from f (n / 10) (String.◌∷◌ (digit (n % 10)) rest) (ground arith)
      ∙ (value_from-digit (n / 10) (n % 10) rest (omega arith)
          ∙ ap (λ v. value_from v rest) (omega arith)))
]

-- Reading the print of a number gives the number.
value_from-decimal : (n : ℕ) → value_from 0 (decimal n) ≡ n
unfolding decimal value_from
value_from-decimal n = value_from-decimal_from (suc n) n "" (omega arith)

-- Different numbers print differently.
pub decimal_inj : (n m : ℕ) → decimal n ≡ decimal m → n ≡ m
decimal_inj n m e = sym (value_from-decimal n) ∙ (ap (value_from 0) e ∙ value_from-decimal m)

-- So do they behind a common prefix.
pub decimal_inj_behind :
    (p : String) (n m : ℕ) → String.◌++◌ p (decimal n) ≡ String.◌++◌ p (decimal m) → n ≡ m
decimal_inj_behind p n m e = decimal_inj n m (append_cancel_left p (decimal n) (decimal m) e)

decimal_test : decimal 1207 ≡ "1207"
unfolding decimal
decimal_test = refl

has_part_test : has_part "abcde" "cd" ≡ true
unfolding has_part
has_part_test = refl
