-- ===== src/Diff/Lookup.antt =====
-- packages/server/src/domain/diff.ts: two lists matched by a key through the maps built from them.
use remote_sql_agent.Prelude.{
  ◌≡◌, refl, sym, ap, subst, ◌∙◌, ◌↔◌, inl, inr, Bool, Bool-cases, true, false, Option,
  Option-cases, none, some, is_some, List, [], ◌∷◌, ◌++◌, All, All-Elem, All-of, Elem, find_last,
  find_last-some, arith,
}
use remote_sql_agent.Diff.{present, gone}

-- Members of the list with the same key are the same.
abbrev pub IsKeyed : {A K : Type 0} → (A → K) → List A → Type 0
IsKeyed key xs = (a b : _) → Elem a xs → Elem b xs → key a ≡ key b → a ≡ b

module _ {A K : Type 0} (key : A → K) (is_of : K → A → Bool)
    (matches : (k : K) (a : A) → (is_of k a ≡ true) ↔ (key a ≡ k)) where
  abbrev at : List A → K → Option A
  at xs k = find_last (is_of k) xs

  find_last-none :
      (p : A → Bool) (xs : List A) (a : A) → find_last p xs ≡ none → Elem a xs → p a ≡ false
  find_last-none p [] a h m = absurd m
  find_last-none p (x ∷ xs) a h m = elim (Option-cases (find_last p xs)) [
    | inr (y, e) ↦ absurd (ground (arith, e, h))
    | inl e ↦ elim m [
      | inl same ↦ let miss : p x ≡ false = ground (arith, e, h) in rw (same) miss
      | inr m' ↦ find_last-none p xs a e m'
    ]
  ]

  at-Elem :
      (xs : List A) (a : A)
      → Elem a xs
      → (b : A) × (at xs (key a) ≡ some b) × Elem b xs × (key b ≡ key a)
  at-Elem xs a m = elim (Option-cases (at xs (key a))) [
    | inl e ↦
        let miss = find_last-none (is_of (key a)) xs a e m in
        let hit : is_of (key a) a ≡ true = (matches (key a) a).1 refl in
        absurd (ground (arith, miss, hit))
    | inr (b, e) ↦
        let (mb, hit) = find_last-some (is_of (key a)) b xs e in
        (b, e, mb, (matches (key a) b).0 hit)
  ]

  -- What the two loops find when they report nothing.
  abbrev pub Nothing : List A → List A → Type 0
  Nothing before after =
      All (λ a. at before (key a) ≡ some a) after
      × All (λ b. is_some (at after (key b)) ≡ true) before

  pub Nothing-agrees :
      (before after : List A) → Nothing before after → (k : K) → at before k ≡ at after k
  Nothing-agrees before after (found, kept) k = elim (Option-cases (at after k)) [
    | inr (a, e) ↦
        let (m, hit) = find_last-some (is_of k) a after e in
        let same : key a ≡ k = (matches k a).0 hit in
        subst (λ x. at before x ≡ some a) same (All-Elem _ after a found m) ∙ sym e
    | inl e ↦ elim (Option-cases (at before k)) [
      | inl f ↦ f ∙ sym e
      | inr (b, f) ↦
          let (m, hit) = find_last-some (is_of k) b before f in
          let same : key b ≡ k = (matches k b).0 hit in
          let there : is_some (at after (key b)) ≡ true =
            All-Elem (λ x. is_some (at after (key x)) ≡ true) before b kept m in
          absurd (ground (arith, subst (λ x. is_some (at after x) ≡ true) same there, e))
    ]
  ]

  pub agrees-Nothing :
      (before after : List A)
      → IsKeyed key after
      → ((k : K) → at before k ≡ at after k)
      → Nothing before after
  agrees-Nothing before after keyed agree = (
    All-of _ after (λ a m.
        let (b, e, mb, same) = at-Elem after a m in
        agree (key a) ∙ e ∙ ap some (keyed b a mb m same)),
    All-of (λ b. is_some (at after (key b)) ≡ true) before
        (λ b m. let (c, e, mc, same) = at-Elem before b m in ap is_some (sym (agree (key b)) ∙ e)),
  )

pub append_nil : {C : Type 0} (xs ys : List C) → (xs ++ ys ≡ []) ↔ ((xs ≡ []) × (ys ≡ []))
append_nil [] ys = (λ h. (refl, h), λ h. h.1)
append_nil (x ∷ xs) ys = (λ h. absurd (cc), λ h. absurd (cc))

module _ {A C : Type 0} where
  pub present_nil :
      (changes : A → List C) (xs : List A)
      → (present changes xs ≡ []) ↔ All (λ a. changes a ≡ []) xs
  unfolding present
  present_nil changes [] = (λ h. tt, λ h. refl)
  present_nil changes (a ∷ xs) =
      let (to, from) = append_nil (changes a) (present changes xs) in
      let (to', from') = present_nil changes xs in
      (λ h. ((to h).0, to' (to h).1), λ h. from (h.0, from' h.1))

  pub gone_nil :
      (stays : A → Bool) (change : A → C) (xs : List A)
      → (gone stays change xs ≡ []) ↔ All (λ a. stays a ≡ true) xs
  unfolding gone
  gone_nil stays change [] = (λ h. tt, λ h. refl)
  gone_nil stays change (b ∷ xs) = elim (Bool-cases (stays b)) [
    | inl e ↦ let (to, from) = gone_nil stays change xs in rw (e) (λ h. (refl, to h), λ h. from h.1)
    | inr e ↦ rw (e) (λ h. absurd (cc), λ h. absurd (cc))
  ]
