-- ===== src/JobEdit/Spliced.antt =====
-- packages/protocol/src/job-edit.ts: the list that `reorderStep` makes with its two calls of `splice` has the same nodes.
use remote_sql_agent.Prelude.{
  ℕ, zero, suc, ◌≡◌, refl, ap, ◌∙◌, subst, ◌↔◌, inl, inr, List, [], ◌∷◌, ◌++◌, length,
  length-append, take, drop, take-append-drop, Elem, Elem-append, arith,
}
use remote_sql_agent.JobEdit.Nodes.{Node}
use remote_sql_agent.JobEdit.Steps.{splice_out}
use remote_sql_agent.JobEdit.Renumbering.{SameNodes}

Elem-rearranged :
    (n : Node) (a b c t r : List Node)
    → t ++ r ≡ a ++ c
    → Elem n (a ++ (b ++ c)) ↔ Elem n (t ++ (b ++ r))
Elem-rearranged n a b c t r e =
    let same : Elem n (t ++ r) ↔ Elem n (a ++ c) = rw e (λ x. x, λ x. x) in
    let abc = Elem-append n a (b ++ c) in
    let bc = Elem-append n b c in
    let ac = Elem-append n a c in
    let tr = Elem-append n t r in
    let br = Elem-append n b r in
    let tbr = Elem-append n t (b ++ r) in
    (
      λ h. elim (abc.0 h) [
        | inl x ↦ elim (tr.0 (same.1 (ac.1 (inl x)))) [
          | inl y ↦ tbr.1 (inl y)
          | inr y ↦ tbr.1 (inr (br.1 (inr y)))
        ]
        | inr x ↦ elim (bc.0 x) [
          | inl y ↦ tbr.1 (inr (br.1 (inl y)))
          | inr y ↦ elim (tr.0 (same.1 (ac.1 (inr y)))) [
            | inl z ↦ tbr.1 (inl z)
            | inr z ↦ tbr.1 (inr (br.1 (inr z)))
          ]
        ]
      ],
      λ h. elim (tbr.0 h) [
        | inl x ↦ elim (ac.0 (same.0 (tr.1 (inl x)))) [
          | inl y ↦ abc.1 (inl y)
          | inr y ↦ abc.1 (inr (bc.1 (inr y)))
        ]
        | inr x ↦ elim (br.0 x) [
          | inl y ↦ abc.1 (inr (bc.1 (inl y)))
          | inr y ↦ elim (ac.0 (same.0 (tr.1 (inr y)))) [
            | inl z ↦ abc.1 (inl z)
            | inr z ↦ abc.1 (inr (bc.1 (inr z)))
          ]
        ]
      ],
    )

length-rearranged :
    (a b c t r : List Node) → t ++ r ≡ a ++ c → length (t ++ (b ++ r)) ≡ length (a ++ (b ++ c))
length-rearranged a b c t r e = omega (
  arith,
  length-append {0} t (b ++ r),
  length-append {0} b r,
  length-append {0} a (b ++ c),
  length-append {0} b c,
  length-append {0} a c,
  length-append {0} t r,
  ap (λ (l : List Node). length l) e,
)

taken_apart : (k : ℕ) (xs : List Node) → take k xs ++ (take 1 (drop k xs) ++ drop (suc k) xs) ≡ xs
taken_apart zero [] = refl
taken_apart zero (x ∷ xs) = refl
taken_apart (suc k) [] = refl
taken_apart (suc k) (x ∷ xs) = ap (◌∷◌ x) (taken_apart k xs)

pub take-drop-SameNodes :
    (from to : ℕ) (xs : List Node)
    → let rest = splice_out from xs in
      let ys = take to rest ++ (take 1 (drop from xs) ++ drop to rest) in
      SameNodes xs ys × (length ys ≡ length xs)
take-drop-SameNodes from to xs =
    let rest = splice_out from xs in
    let e = take-append-drop to rest in
    let a = take from xs in
    let b = take 1 (drop from xs) in
    let c = drop (suc from) xs in
    let whole = taken_apart from xs in
    (
      λ n.
          subst (λ l. Elem n l ↔ Elem n (take to rest ++ (b ++ drop to rest))) whole
            (Elem-rearranged n a b c (take to rest) (drop to rest) e),
      length-rearranged a b c (take to rest) (drop to rest) e ∙ ap length whole,
    )
