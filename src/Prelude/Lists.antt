-- ===== src/Prelude/Lists.antt =====
-- Lists under native indices and Boolean tests: `find`, `filter`, `some`, `every`, `includes`.
use Prim.Native.Nat.{ℕ, zero, suc, ◌+◌, ◌-◌, ◌≤◌}
use mathlib.Core.Path.{◌≡◌, refl, sym, ap, subst, ◌∙◌}
use mathlib.Core.Logic.{◌⊎◌, inl, inr, ◌↔◌}
use mathlib.Core.Bool.{Bool, true, false, ◌&&◌, ◌||◌}
use mathlib.Core.Option.{Option, none, some}
use mathlib.Core.List.{List, [], ◌∷◌, ◌++◌, map}
use native.Mathlib.Omega.{arith}
use remote_sql_agent.Prelude.Tests.{Bool-cases, Option-cases, if◌then◌else◌, ◌==◌, leb}

module _ {ℓ} {A : Type ℓ} where
  abbrev pub length : List A → ℕ
  length [] = 0
  length (x ∷ xs) = suc (length xs)

  abbrev pub get_elem? : List A → ℕ → Option A
  get_elem? [] i = none
  get_elem? (x ∷ xs) zero = some x
  get_elem? (x ∷ xs) (suc i) = get_elem? xs i

  abbrev pub All {κ} : (A → Type κ) → List A → Type κ
  All P [] = Unit
  All P (x ∷ xs) = P x × All P xs

  abbrev pub take : ℕ → List A → List A
  take zero xs = []
  take (suc n) [] = []
  take (suc n) (x ∷ xs) = x ∷ take n xs

  abbrev pub drop : ℕ → List A → List A
  drop zero xs = xs
  drop (suc n) [] = []
  drop (suc n) (x ∷ xs) = drop n xs

  pub take-append-drop : (n : ℕ) (xs : List A) → take n xs ++ drop n xs ≡ xs
  take-append-drop zero xs = refl
  take-append-drop (suc n) [] = refl
  take-append-drop (suc n) (x ∷ xs) = rw (take-append-drop n xs)

  pub length-drop : (n : ℕ) (xs : List A) → length (drop n xs) ≡ length xs - n
  length-drop zero xs = omega arith
  length-drop (suc n) [] = omega arith
  length-drop (suc n) (x ∷ xs) = omega (arith, length-drop n xs)

  -- `Array.prototype.some`, `every`, `filter` and `find`.
  abbrev pub any : (A → Bool) → List A → Bool
  any p [] = false
  any p (x ∷ xs) = p x || any p xs

  abbrev pub every : (A → Bool) → List A → Bool
  every p [] = true
  every p (x ∷ xs) = p x && every p xs

  abbrev pub filter : (A → Bool) → List A → List A
  filter p [] = []
  filter p (x ∷ xs) = let rest = filter p xs in if p x then x ∷ rest else rest

  abbrev pub find : (A → Bool) → List A → Option A
  find p [] = none
  find p (x ∷ xs) = let rest = find p xs in if p x then some x else rest

  -- What a `Map` built from the list in order answers: the last entry wins.
  abbrev pub find_last : (A → Bool) → List A → Option A
  find_last p [] = none
  find_last p (x ∷ xs) = elim (find_last p xs) [
    | some y ↦ some y
    | none ↦ if p x then some x else none
  ]

  pub length-append : (xs ys : List A) → length (xs ++ ys) ≡ length xs + length ys
  length-append [] ys = omega arith
  length-append (x ∷ xs) ys = omega (arith, length-append xs ys)

  pub length-filter-le : (p : A → Bool) (xs : List A) → length (filter p xs) ≤ length xs
  length-filter-le p [] = omega arith
  length-filter-le p (x ∷ xs) = ground (arith, length-filter-le p xs)

  pub List-cases : (xs : List A) → (xs ≡ []) ⊎ ((x : A) × (rest : List A) × (xs ≡ x ∷ rest))
  List-cases [] = inl refl
  List-cases (x ∷ xs) = inr (x, xs, refl)

module _ {A : Type 0} where
  -- Membership, by recursion.
  abbrev pub Elem : A → List A → Type 0
  Elem a [] = ⊥
  Elem a (x ∷ xs) = (a ≡ x) ⊎ Elem a xs

  pub Elem-append : (a : A) (xs ys : List A) → Elem a (xs ++ ys) ↔ (Elem a xs ⊎ Elem a ys)
  Elem-append a [] ys = (inr, λ h. elim h [ inl e ↦ absurd e | inr e ↦ e ])
  Elem-append a (x ∷ xs) ys = ground (arith, Elem-append a xs ys)

  pub Elem-filter :
      (p : A → Bool) (a : A) (xs : List A) → Elem a (filter p xs) ↔ (Elem a xs × (p a ≡ true))
  Elem-filter p a [] = (λ h. absurd h, λ h. absurd h.0)
  Elem-filter p a (x ∷ xs) = ground (arith, Elem-filter p a xs)

  pub find-some :
      (p : A → Bool) (a : A) (xs : List A) → find p xs ≡ some a → Elem a xs × (p a ≡ true)
  find-some p a [] h = cc
  find-some p a (x ∷ xs) h = ground (arith, find-some p a xs)

pub find_last-some :
    {A : Type 0} (p : A → Bool) (a : A) (xs : List A)
    → find_last p xs ≡ some a
    → Elem a xs × (p a ≡ true)
find_last-some p a [] h = cc
find_last-some p a (x ∷ xs) h = elim (Option-cases (find_last p xs)) [
  | inl e ↦ elim (Bool-cases (p x)) [
    | inl hit ↦ let same : a ≡ x = ground (arith, e, hit, h) in (inl same, rw same hit)
    | inr miss ↦ absurd (ground (arith, e, miss, h))
  ]
  | inr (y, e) ↦ let (m, k) = find_last-some p a xs (e ∙ (rw e at h)) in (inr m, k)
]

pub length-map {ℓ κ} :
    {A : Type ℓ} {B : Type κ} (f : A → B) (xs : List A) → length (map f xs) ≡ length xs
length-map f [] = refl
length-map f (x ∷ xs) = ap suc (length-map f xs)

-- `includes` on a list of numbers, and the `has` of a `Set<number>`.
abbrev pub includes : List ℕ → ℕ → Bool
includes xs a = any (λ x. x == a) xs

pub includes_iff : (xs : List ℕ) (a : ℕ) → (includes xs a ≡ true) ↔ Elem a xs
includes_iff [] a = (λ h. cc, λ h. absurd h)
includes_iff (x ∷ xs) a = ground (arith, includes_iff xs a)

-- A stable sort by a numeric key: `sort((a, b) => a.key - b.key)`.
module _ {ℓ} {A : Type ℓ} (key : A → ℕ) where
  abbrev pub insert_by : A → List A → List A
  insert_by a [] = a ∷ []
  insert_by a (x ∷ xs) =
      let rest = insert_by a xs in if leb (key a) (key x) then a ∷ x ∷ xs else x ∷ rest

  abbrev pub sort_by : List A → List A
  sort_by [] = []
  sort_by (x ∷ xs) = insert_by x (sort_by xs)

module _ {A B : Type 0} (f : A → B) where
  pub Elem-map : (a : A) (xs : List A) → Elem a xs → Elem (f a) (map f xs)
  Elem-map a [] h = h
  Elem-map a (x ∷ xs) (inl e) = inl (ap f e)
  Elem-map a (x ∷ xs) (inr m) = inr (Elem-map a xs m)

  pub Elem-map_source : (b : B) (xs : List A) → Elem b (map f xs) → (a : A) × Elem a xs × (b ≡ f a)
  Elem-map_source b [] h = absurd h
  Elem-map_source b (x ∷ xs) (inl e) = (x, inl refl, e)
  Elem-map_source b (x ∷ xs) (inr m) = let (a, k, e) = Elem-map_source b xs m in (a, inr k, e)

module _ {A : Type 0} (P : A → Type 0) where
  pub All-Elem : (xs : List A) (a : A) → All P xs → Elem a xs → P a
  All-Elem [] a h m = absurd m
  All-Elem (x ∷ xs) a h (inl e) = subst P (sym e) h.0
  All-Elem (x ∷ xs) a h (inr m) = All-Elem xs a h.1 m

  -- A property of each member of a list is one of all.
  pub All-of : (xs : List A) → ((a : A) → Elem a xs → P a) → All P xs
  All-of [] h = tt
  All-of (x ∷ xs) h = (h x (inl refl), All-of xs (λ a m. h a (inr m)))

  pub All-concat : (xs : List A) (a : A) → All P xs → P a → All P (xs ++ a ∷ [])
  All-concat [] a h p = (p, tt)
  All-concat (x ∷ xs) a h p = (h.0, All-concat xs a h.1 p)
