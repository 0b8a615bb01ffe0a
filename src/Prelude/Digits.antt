-- ===== src/Prelude/Digits.antt =====
-- What decimal digits stand for: the value of a text of digits, its padding, and texts split at a sign.
use Prim.Native.Nat.{ℕ, zero, suc, ◌+◌, ◌-◌, ◌*◌, ◌/◌, ◌%◌, ◌≤◌, ◌<◌}
use mathlib.Core.Path.{◌≡◌, refl, sym, ap, subst, ◌∙◌}
use mathlib.Core.Logic.{inl, inr}
use mathlib.Core.Bool.{false}
use mathlib.Core.List.{List, [], ◌∷◌, ◌++◌}
use native.Mathlib.Omega.{arith}
use remote_sql_agent.Prelude.Tests.{if◌then◌else◌, ltb, ◌==◌, Bool-cases}
use remote_sql_agent.Prelude.Lists.{All, length, length-append}
use remote_sql_agent.Prelude.Decimal.{digits_from, decimal}

-- A decimal digit, as a code point.
abbrev pub IsDigit : ℕ → Type 0
IsDigit c = (48 ≤ c) × (c < 58)

abbrev pub value_from : ℕ → List ℕ → ℕ
value_from acc [] = acc
value_from acc (c ∷ s) = value_from (acc * 10 + (c - 48)) s

abbrev pub value : List ℕ → ℕ
value s = value_from 0 s

value_from-concat :
    (acc : ℕ) (s : List ℕ) (c : ℕ) → value_from acc (s ++ c ∷ []) ≡ value_from acc s * 10 + (c - 48)
value_from-concat acc [] c = refl
value_from-concat acc (d ∷ s) c = value_from-concat (acc * 10 + (d - 48)) s c

pub All-append :
    {A : Type 0} (P : A → Type 0) (xs ys : List A) → All P xs → All P ys → All P (xs ++ ys)
All-append P [] ys h k = k
All-append P (x ∷ xs) ys (h, hs) k = (h, All-append P xs ys hs k)

value-digits :
    (fuel n : ℕ) → n < fuel → (value (digits_from fuel n) ≡ n) × All IsDigit (digits_from fuel n)
unfolding digits_from
value-digits zero n h = absurd (omega (arith, h))
value-digits (suc fuel) n h = elim (Bool-cases (ltb n 10)) [
  | inl small ↦
      let lt : n < 10 = ground (arith, small) in
      rw (small) (omega arith, ((omega arith, omega (arith, lt)), tt))
  | inr big ↦
      let ge : 10 ≤ n = ground (arith, big) in
      let (v, d) = value-digits fuel (n / 10) (omega (arith, h, ge)) in
      rw (big) (
        value_from-concat 0 (digits_from fuel (n / 10)) (48 + n % 10) ∙ omega (arith, v),
        All-append IsDigit (digits_from fuel (n / 10)) ((48 + n % 10) ∷ []) d
            ((omega arith, omega arith), tt),
      )
]

abbrev pub pow10 : ℕ → ℕ
pow10 zero = 1
pow10 (suc k) = 10 * pow10 k

length-digits : (fuel n k : ℕ) → n < 10 * pow10 k → length (digits_from fuel n) ≤ suc k
unfolding digits_from
length-digits zero n k h = omega arith
length-digits (suc fuel) n k h = elim (Bool-cases (ltb n 10)) [
  | inl small ↦ rw (small) (omega arith)
  | inr big ↦ rw (big) (
      subst (λ x. x ≤ suc k) (sym (length-append (digits_from fuel (n / 10)) ((48 + n % 10) ∷ [])))
        (shorter k h (ground (arith, big)) (length-digits fuel (n / 10))))
]
  where
    shorter :
        (k : ℕ)
        → n < 10 * pow10 k
        → 10 ≤ n
        → ((j : ℕ) → n / 10 < 10 * pow10 j → length (digits_from fuel (n / 10)) ≤ suc j)
        → length (digits_from fuel (n / 10)) + 1 ≤ suc k
    shorter zero h ge rest = absurd (omega (arith, h, ge))
    shorter (suc j) h ge rest = omega (arith, rest j (omega (arith, h)))

abbrev pub replicate : ℕ → ℕ → List ℕ
replicate zero c = []
replicate (suc n) c = c ∷ replicate n c

-- `padStart(w, '0')`.
unfoldable pub pad_start : ℕ → List ℕ → List ℕ
pad_start w s = replicate (w - length s) 48 ++ s

value-zeros : (n : ℕ) (s : List ℕ) → value (replicate n 48 ++ s) ≡ value s
value-zeros zero s = refl
value-zeros (suc n) s = value-zeros n s

length-replicate : (n c : ℕ) → length (replicate n c) ≡ n
length-replicate zero c = refl
length-replicate (suc n) c = ap suc (length-replicate n c)

All-zeros : (n : ℕ) → All IsDigit (replicate n 48)
All-zeros zero = tt
All-zeros (suc n) = ((omega arith, omega arith), All-zeros n)

pub value-decimal : (n : ℕ) → (value (decimal n) ≡ n) × All IsDigit (decimal n)
unfolding decimal
value-decimal n = value-digits (suc n) n (omega arith)

-- A number that is below a power of ten is written, with zeros before it, in as many digits as the power has zeros.
pub decimal-padded :
    (k n : ℕ)
    → n < pow10 (suc k)
    → let s = pad_start (suc k) (decimal n) in (length s ≡ suc k) × (value s ≡ n) × All IsDigit s
unfolding pad_start decimal
decimal-padded k n h =
    let s = digits_from (suc n) n in
    let (v, d) = value-digits (suc n) n (omega arith) in
    let short : length s ≤ suc k = length-digits (suc n) n k h in
    let zeros = suc k - length s in
    (
      length-append (replicate zeros 48) s ∙ omega (arith, short, length-replicate zeros 48),
      value-zeros zeros s ∙ v,
      All-append IsDigit (replicate zeros 48) s (All-zeros zeros) d,
    )

-- `split(sign)`.
abbrev pub cons_first : ℕ → List (List ℕ) → List (List ℕ)
cons_first c [] = (c ∷ []) ∷ []
cons_first c (p ∷ ps) = (c ∷ p) ∷ ps

unfoldable pub split : ℕ → List ℕ → List (List ℕ)
split sign [] = [] ∷ []
split sign (c ∷ s) = let rest = split sign s in if c == sign then [] ∷ rest else cons_first c rest

pub split-part :
    (sign : ℕ) (xs ys : List ℕ)
    → All (λ c. (c == sign) ≡ false) xs
    → split sign (xs ++ sign ∷ ys) ≡ xs ∷ split sign ys
unfolding split
split-part sign [] ys h = ground arith
split-part sign (x ∷ xs) ys (h, hs) = rw (h, split-part sign xs ys hs)

pub split-last :
    (sign : ℕ) (xs : List ℕ) → All (λ c. (c == sign) ≡ false) xs → split sign xs ≡ xs ∷ []
unfolding split
split-last sign [] h = refl
split-last sign (x ∷ xs) (h, hs) = rw (h, split-last sign xs hs)
