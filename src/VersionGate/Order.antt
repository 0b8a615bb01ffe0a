-- ===== src/VersionGate/Order.antt =====
-- packages/server/src/hub/version-gate.ts: what the comparison of versions decides.
use remote_sql_agent.Prelude.{
  ℕ, zero, suc, ◌+◌, ◌≤◌, ◌<◌, max, ◌==◌, ==_iff, ◌≡◌, ◌≢◌, refl, sym, ◌∙◌, ◌↔◌, inl, inr,
  Bool-cases, false, String, str_eq, eq_iff, Option, none, some, List, [], ◌∷◌, length, codes,
  arith,
}
use remote_sql_agent.VersionGate.{
  parse, Comparison, before, same, after, head, tail, compare_parts, compare_versions, allowed,
  unless_before, check_worker_version,
}

-- The part at a place, with 0 behind the end.
abbrev pub part : ℕ → List ℕ → ℕ
part zero xs = head xs
part (suc i) xs = part i (tail xs)

-- The first place where two versions differ has the smaller number on the left.
abbrev pub Precedes : List ℕ → List ℕ → Type 0
Precedes xs ys = (i : ℕ) × ((j : ℕ) → j < i → part j xs ≡ part j ys) × (part i xs < part i ys)

length-tail : (xs : List ℕ) (n : ℕ) → length xs ≤ suc n → length (tail xs) ≤ n
length-tail [] n h = omega arith
length-tail (x ∷ xs) n h = omega (arith, h)

head-empty : (xs : List ℕ) → length xs ≤ 0 → (head xs ≡ 0) × (length (tail xs) ≤ 0)
head-empty [] h = (refl, h)
head-empty (x ∷ xs) h = absurd (omega (arith, h))

-- Any number of rounds that covers both lists gives the same answer.
compare_parts-enough :
    (n m : ℕ) (xs ys : List ℕ)
    → length xs ≤ n
    → length ys ≤ n
    → length xs ≤ m
    → length ys ≤ m
    → compare_parts n xs ys ≡ compare_parts m xs ys
unfolding compare_parts
compare_parts-enough zero zero xs ys a b c d = refl
compare_parts-enough zero (suc m) xs ys a b c d =
    let (x, a') = head-empty xs a in
    let (y, b') = head-empty ys b in
    let ih =
      compare_parts-enough zero m (tail xs) (tail ys) a' b' (omega (arith, a'))
        (omega (arith, b')) in
    ground (arith, x, y, ih)
compare_parts-enough (suc n) zero xs ys a b c d =
    let (x, c') = head-empty xs c in
    let (y, d') = head-empty ys d in
    let ih =
      compare_parts-enough n zero (tail xs) (tail ys) (omega (arith, c')) (omega (arith, d')) c'
        d' in
    ground (arith, x, y, ih)
compare_parts-enough (suc n) (suc m) xs ys a b c d =
    let ih =
      compare_parts-enough n m (tail xs) (tail ys) (length-tail xs n a) (length-tail ys n b)
        (length-tail xs m c) (length-tail ys m d) in
    ground (arith, ih)

compare_parts-not_before :
    (n : ℕ) (xs ys zs : List ℕ)
    → compare_parts n xs ys ≢ before
    → compare_parts n ys zs ≢ before
    → compare_parts n xs zs ≢ before
unfolding compare_parts
compare_parts-not_before zero xs ys zs h k = h
compare_parts-not_before (suc n) xs ys zs h k =
    let ih = compare_parts-not_before n (tail xs) (tail ys) (tail zs) in ground (arith, ih)

level-cons :
    (i : ℕ) (xs ys : List ℕ)
    → head xs ≡ head ys
    → ((j : ℕ) → j < i → part j (tail xs) ≡ part j (tail ys))
    → (j : ℕ) → j < suc i
    → part j xs ≡ part j ys
level-cons i xs ys e h zero lt = e
level-cons i xs ys e h (suc j) lt = h j (omega (arith, lt))

part-empty : (i : ℕ) (xs : List ℕ) → length xs ≤ 0 → part i xs ≡ 0
part-empty zero xs h = (head-empty xs h).0
part-empty (suc i) xs h = part-empty i (tail xs) (head-empty xs h).1

-- The comparison says before exactly where the first difference is smaller.
compare_parts-Precedes : (n : ℕ) (xs ys : List ℕ) → compare_parts n xs ys ≡ before → Precedes xs ys
unfolding compare_parts
compare_parts-Precedes zero xs ys h = cc
compare_parts-Precedes (suc n) xs ys h = elim (Bool-cases (head xs == head ys)) [
  | inl level ↦
      let e : head xs ≡ head ys = (==_iff (head xs) (head ys)).0 level in
      let (i, lower, less) =
        compare_parts-Precedes n (tail xs) (tail ys) (ground (arith, h, level)) in
      (suc i, level-cons i xs ys e lower, less)
  | inr differ ↦ (0, λ j lt. absurd (omega (arith, lt)), ground (arith, h, differ))
]

Precedes-compare_parts :
    (n i : ℕ) (xs ys : List ℕ)
    → length xs ≤ n
    → length ys ≤ n
    → ((j : ℕ) → j < i → part j xs ≡ part j ys)
    → part i xs < part i ys
    → compare_parts n xs ys ≡ before
unfolding compare_parts
Precedes-compare_parts zero i xs ys a b level less =
    absurd (omega (arith, less, part-empty i xs a, part-empty i ys b))
Precedes-compare_parts (suc n) zero xs ys a b level less = ground (arith, less)
Precedes-compare_parts (suc n) (suc i) xs ys a b level less =
    let here : head xs ≡ head ys = level 0 (omega arith) in
    let ih =
      Precedes-compare_parts n i (tail xs) (tail ys) (length-tail xs n a) (length-tail ys n b)
        (λ j lt. level (suc j) (omega (arith, lt))) less in
    ground (arith, here, ih)

-- One version comes before another exactly where, at the first part in which they differ, with 0 for a part that is not
-- there, its number is the smaller.
pub compare_versions-Precedes :
    (a b : String) → (compare_versions a b ≡ before) ↔ Precedes (parse (codes a)) (parse (codes b))
unfolding compare_versions
compare_versions-Precedes a b =
    let xs = parse (codes a) in
    let ys = parse (codes b) in
    let n = max (length xs) (length ys) in
    (
      compare_parts-Precedes n xs ys,
      λ (i, level, less). Precedes-compare_parts n i xs ys (omega arith) (omega arith) level less,
    )

compare_versions-rounds :
    (n : ℕ) (a b : String)
    → length (parse (codes a)) ≤ n
    → length (parse (codes b)) ≤ n
    → compare_versions a b ≡ compare_parts n (parse (codes a)) (parse (codes b))
unfolding compare_versions
compare_versions-rounds n a b h k =
    let xs = parse (codes a) in
    let ys = parse (codes b) in
    compare_parts-enough (max (length xs) (length ys)) n xs ys (omega arith) (omega arith) h k

compare_versions-not_before :
    (a b c : String)
    → compare_versions a b ≢ before
    → compare_versions b c ≢ before
    → compare_versions a c ≢ before
compare_versions-not_before a b c h k =
    let xs = parse (codes a) in
    let ys = parse (codes b) in
    let zs = parse (codes c) in
    let n = length xs + length ys + length zs in
    let ab = compare_versions-rounds n a b (omega arith) (omega arith) in
    let bc = compare_versions-rounds n b c (omega arith) (omega arith) in
    let ac = compare_versions-rounds n a c (omega arith) (omega arith) in
    let all = compare_parts-not_before n xs ys zs (λ e. h (ab ∙ e)) (λ e. k (bc ∙ e)) in
    λ e. all (sym ac ∙ e)

allowed_iff : (c : Comparison) → (unless_before c ≡ allowed) ↔ (c ≢ before)
allowed_iff before = (λ e. absurd (cc), λ h. absurd (h refl))
allowed_iff same = (λ e k. absurd (cc), λ h. refl)
allowed_iff after = (λ e k. absurd (cc), λ h. refl)

not_blank : (s : String) → s ≢ "" → str_eq s "" ≡ false
not_blank s h = elim (Bool-cases (str_eq s "")) [
  | inl e ↦ absurd (h ((eq_iff s "").0 e))
  | inr e ↦ e
]

-- Where a minimum is set, a worker is let in exactly if it reports a version and that version does not precede the
-- minimum.
pub check_worker_version-allowed :
    (reported minimum : String)
    → minimum ≢ ""
    → (check_worker_version reported (some minimum) ≡ allowed)
      ↔ ((reported ≢ "") × (¬ Precedes (parse (codes reported)) (parse (codes minimum))))
unfolding check_worker_version
check_worker_version-allowed reported minimum set =
    let c = compare_versions reported minimum in
    let order = compare_versions-Precedes reported minimum in
    let unset = not_blank minimum set in
    elim (Bool-cases (str_eq reported "")) [
      | inl blank ↦ (
        λ e. absurd (ground (arith, unset, blank, e)),
        λ (r, p). absurd (r ((eq_iff reported "").0 blank)),
      )
      | inr there ↦ (
        λ e.
            let ok : unless_before c ≡ allowed = rw (unset, there) at e in
            (
              λ b. absurd (ground (arith, there, eq_iff reported "", b)),
              λ p. (allowed_iff c).0 ok (order.1 p),
            ),
        λ (r, p). rw (unset, there) ((allowed_iff c).1 (λ b. p (order.0 b))),
      )
    ]

-- An upgrade is not shut out: where a worker is let in, a worker that reports a version, and one that does not come
-- before the first worker's, is let in as well.
pub check_worker_version-upgrade :
    (v v' : String) (minimum : Option String)
    → check_worker_version v minimum ≡ allowed
    → v' ≢ ""
    → compare_versions v' v ≢ before
    → check_worker_version v' minimum ≡ allowed
unfolding check_worker_version
check_worker_version-upgrade v v' none ok reports newer = refl
check_worker_version-upgrade v v' (some minimum) ok reports newer =
    elim (Bool-cases (str_eq minimum "")) [
      | inl unset ↦ rw (unset)
      | inr set ↦ elim (Bool-cases (str_eq v "")) [
        | inl blank ↦ absurd (ground (arith, set, blank, ok))
        | inr there ↦
            let old : unless_before (compare_versions v minimum) ≡ allowed =
              rw (set, there) at ok in
            let fine =
              compare_versions-not_before v' v minimum newer
                ((allowed_iff (compare_versions v minimum)).0 old) in
            rw (set, not_blank v' reports) ((allowed_iff (compare_versions v' minimum)).1 fine)
      ]
    ]
