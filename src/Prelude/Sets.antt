-- ===== src/Prelude/Sets.antt =====
-- Sets of values with decidable equality, held as lists: `has`, `add` and their laws.
use mathlib.Core.Path.{◌≡◌}
use mathlib.Core.Logic.{◌⊎◌, inl, inr, ◌↔◌, ite}
use mathlib.Core.Bool.{Bool, true, false}
use mathlib.Core.List.{List, [], ◌∷◌, ◌++◌}
use native.Mathlib.Omega.{arith}
use remote_sql_agent.Prelude.Lists.{Elem, Elem-append}
use remote_sql_agent.Prelude.Tests.{if◌then◌else◌}

module _ {A : Type 0} where
  -- `Array.prototype.includes` and `Set.prototype.has`.
  abbrev pub has : Discrete A → List A → A → Bool
  has d [] a = false
  has d (x ∷ xs) a = ite (d x a) true (has d xs a)

  pub has_iff : (d : Discrete A) (xs : List A) (a : A) → (has d xs a ≡ true) ↔ Elem a xs
  has_iff d [] a = (λ h. cc, λ h. absurd h)
  has_iff d (x ∷ xs) a = ground (arith, has_iff d xs a)

  -- `Set.prototype.add`: an entry that is there already is not added again.
  abbrev pub add : Discrete A → List A → A → List A
  add d xs a = if has d xs a then xs else xs ++ a ∷ []

  pub Elem-add :
      (d : Discrete A) (xs : List A) (a b : A) → Elem b (add d xs a) ↔ (Elem b xs ⊎ (b ≡ a))
  Elem-add d xs a b = ground (arith, has_iff d xs a, Elem-append b xs (a ∷ []))

  -- `[...new Set(xs)]`, and the set built by adding the entries of a list in turn.
  abbrev pub add_all : Discrete A → List A → List A → List A
  add_all d s [] = s
  add_all d s (x ∷ xs) = add_all d (add d s x) xs

  pub Elem-add_all :
      (d : Discrete A) (s xs : List A) (b : A) → Elem b (add_all d s xs) ↔ (Elem b s ⊎ Elem b xs)
  Elem-add_all d s [] b = (inl, λ h. elim h [ inl e ↦ e | inr e ↦ absurd e ])
  Elem-add_all d s (x ∷ xs) b = ground (arith, Elem-add_all d (add d s x) xs b, Elem-add d s x b)
