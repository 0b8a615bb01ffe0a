-- ===== src/Prelude/Updates.antt =====
-- `UPDATE ... SET ... WHERE p` on a table, for a `p` that holds of one row at most.
use mathlib.Core.Path.{◌≡◌, refl}
use mathlib.Core.Logic.{◌⊎◌, inl, inr}
use mathlib.Core.Bool.{Bool, true, false, ◌||◌}
use mathlib.Core.Option.{none, some}
use mathlib.Core.List.{List, [], ◌∷◌, ◌++◌}
use native.Mathlib.Omega.{arith}
use remote_sql_agent.Prelude.Lists.{Elem, All, find, any}
use remote_sql_agent.Prelude.Tests.{if◌then◌else◌, Bool-cases, is_some}

module _ {A : Type 0} where
  abbrev pub update_where : (A → Bool) → (A → A) → List A → List A
  update_where p change [] = []
  update_where p change (r ∷ rest) = if p r then change r ∷ rest else r ∷ update_where p change rest

  pub All-update_where :
      (P : A → Type 0) (p : A → Bool) (change : A → A) (rows : List A)
      → ((r : A) → find p rows ≡ some r → P r → P (change r))
      → All P rows
      → All P (update_where p change rows)
  All-update_where P p change [] h a = tt
  All-update_where P p change (r ∷ rest) h a = elim (Bool-cases (p r)) [
    | inl hit ↦ rw (hit, update_where) (h r (ground arith) a.0, a.1)
    | inr miss ↦
        rw (miss, update_where)
          (a.0, All-update_where P p change rest (λ x f q. h x (ground arith) q) a.1)
  ]

  -- A row is still there after an update, unless it is the row that was changed.
  pub Elem-update_where :
      (p : A → Bool) (change : A → A) (rows : List A) (r : A)
      → Elem r rows
      → Elem r (update_where p change rows)
        ⊎ ((find p rows ≡ some r) × Elem (change r) (update_where p change rows))
  Elem-update_where p change [] r h = absurd h
  Elem-update_where p change (x ∷ rest) r h = ground (arith, Elem-update_where p change rest r)

  -- An update is read back by its own condition, if the change keeps the condition.
  pub find-update_where :
      (p : A → Bool) (change : A → A) (rows : List A) (r : A)
      → ((x : A) → p (change x) ≡ p x)
      → find p rows ≡ some r
      → find p (update_where p change rows) ≡ some (change r)
  find-update_where p change [] r same f = absurd (cc)
  find-update_where p change (x ∷ rest) r same f = elim (Bool-cases (p x)) [
    | inl hit ↦ ground (arith, same x)
    | inr miss ↦ ground (arith, find-update_where p change rest r same)
  ]

  -- A condition that excludes the update's own, before and after the change, finds what it found.
  pub find-update_where-other :
      (p q : A → Bool) (change : A → A) (rows : List A)
      → ((x : A) → p x ≡ true → q x ≡ false)
      → ((x : A) → p x ≡ true → q (change x) ≡ false)
      → find q (update_where p change rows) ≡ find q rows
  find-update_where-other p q change [] before after = refl
  find-update_where-other p q change (x ∷ rest) before after = elim (Bool-cases (p x)) [
    | inl hit ↦ ground (arith, hit, before x hit, after x hit)
    | inr miss ↦ ground (arith, miss, find-update_where-other p q change rest before after)
  ]

  pub find-concat :
      (q : A → Bool) (rows : List A) (r : A)
      → find q (rows ++ r ∷ [])
        ≡ elim (find q rows) [ some x ↦ some x | none ↦ if q r then some r else none ]
  find-concat q [] r = refl
  find-concat q (x ∷ rest) r = elim (Bool-cases (q x)) [
    | inl hit ↦ rw (hit)
    | inr miss ↦ rw (miss) (find-concat q rest r)
  ]

  -- An update that finds no row leaves the table alone, and then reaches a row at its end.
  pub update_where-concat :
      (p : A → Bool) (change : A → A) (rows : List A) (r : A)
      → any p rows ≡ false
      → update_where p change (rows ++ r ∷ []) ≡ rows ++ (if p r then change r else r) ∷ []
  update_where-concat p change [] r none_hit = ground arith
  update_where-concat p change (x ∷ rest) r none_hit =
      ground (arith, update_where-concat p change rest r)

  -- An update changes nothing if it leaves the row that it finds as it is.
  pub update_where-same :
      (p : A → Bool) (change : A → A) (rows : List A)
      → ((r : A) → find p rows ≡ some r → change r ≡ r)
      → update_where p change rows ≡ rows
  update_where-same p change [] same = refl
  update_where-same p change (x ∷ rest) same = elim (Bool-cases (p x)) [
    | inl hit ↦ ground (arith, hit, same x)
    | inr miss ↦
        ground
          (arith, miss, update_where-same p change rest (λ r f. same r (ground (arith, miss, f))))
  ]

  pub any-find : (p : A → Bool) (rows : List A) → any p rows ≡ is_some (find p rows)
  any-find p [] = refl
  any-find p (x ∷ rest) = ground (arith, any-find p rest)

  pub any-append : (p : A → Bool) (xs ys : List A) → any p (xs ++ ys) ≡ (any p xs || any p ys)
  any-append p [] ys = refl
  any-append p (x ∷ xs) ys = ground (arith, any-append p xs ys)
