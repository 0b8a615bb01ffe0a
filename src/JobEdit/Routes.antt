-- ===== src/JobEdit/Routes.antt =====
-- packages/protocol/src/job-edit.ts: what the next step of a branch depends on.
use remote_sql_agent.Prelude.{
  or_null, ℕ, zero, suc, ◌==◌, ltb, ◌≡◌, refl, sym, ap, ◌∙◌, ◌≢◌, inl, inr, if◌then◌else◌, false,
  Option, none, some, List, [], ◌∷◌, map, filter, sort_by, insert_by, arith, Bool-cases,
}
use remote_sql_agent.Job.{JobStep, go_to_next_step, go_to_step}
use remote_sql_agent.JobFlow.{first_id}
use remote_sql_agent.JobEdit.Toggle.{arrives}

abbrev pub ids : List JobStep → List ℕ
ids steps = map (λ s. s.step_id) steps

abbrev same_key : ℕ → ℕ
same_key n = n

ids-insert_by :
    (s : JobStep) (steps : List JobStep)
    → ids (insert_by (λ x. x.step_id) s steps) ≡ insert_by same_key s.step_id (ids steps)
ids-insert_by s [] = refl
ids-insert_by s (x ∷ rest) = ground (arith, ids-insert_by s rest)

ids-sort_by :
    (steps : List JobStep) → ids (sort_by (λ x. x.step_id) steps) ≡ sort_by same_key (ids steps)
ids-sort_by [] = refl
ids-sort_by (s ∷ rest) =
    ids-insert_by s (sort_by (λ x. x.step_id) rest)
    ∙ ap (insert_by same_key s.step_id) (ids-sort_by rest)

ids-filter :
    (k : ℕ) (steps : List JobStep)
    → ids (filter (λ x. ltb k x.step_id) steps) ≡ filter (ltb k) (ids steps)
ids-filter k [] = refl
ids-filter k (s ∷ rest) = ground (arith, ids-filter k rest)

abbrev head_of : List ℕ → Option ℕ
head_of [] = none
head_of (n ∷ rest) = some n

first_id-ids : (steps : List JobStep) → first_id steps ≡ head_of (ids steps)
first_id-ids [] = refl
first_id-ids (s ∷ rest) = refl

abbrev pub above : ℕ → List JobStep → Option ℕ
above k steps = first_id (sort_by (λ s. s.step_id) (filter (λ s. ltb k s.step_id) steps))

-- What follows in the order of ids depends on the ids alone.
above-ids : (k : ℕ) (xs ys : List JobStep) → ids xs ≡ ids ys → above k xs ≡ above k ys
above-ids k xs ys e =
    let to_ids : (zs : List JobStep)
        → above k zs ≡ head_of (sort_by same_key (filter (ltb k) (ids zs))) =
      λ zs.
        first_id-ids (sort_by (λ s. s.step_id) (filter (λ s. ltb k s.step_id) zs))
        ∙ ap head_of (
            ids-sort_by (filter (λ s. ltb k s.step_id) zs)
            ∙ ap (sort_by same_key) (ids-filter k zs)) in
    to_ids xs ∙ ap (λ l. head_of (sort_by same_key (filter (ltb k) l))) e ∙ sym (to_ids ys)

-- The next step of a branch, from its action and its target.
abbrev pub next_by : List JobStep → ℕ → ℕ → ℕ → Option ℕ
next_by steps k action target =
    if action == go_to_step
    then or_null target
    else (if action == go_to_next_step then above k steps else none)

pub or_null-some : (t v : ℕ) → or_null t ≡ some v → t ≡ v
or_null-some zero v e = absurd (cc)
or_null-some (suc t) v e = cc

-- A branch that does not arrive at a step does not go there when the ids stay as they are.
pub next_by-apart :
    (xs ys : List JobStep) (k action target id v : ℕ)
    → ids xs ≡ ids ys
    → arrives action target (next_by ys k action target) id ≡ false
    → next_by xs k action target ≡ some v
    → v ≢ id
next_by-apart xs ys k action target id v e misses goes same =
    elim (Bool-cases (action == go_to_step)) [
      | inl jumps ↦
          let t : target ≡ v = or_null-some target v (rw jumps at goes) in
          absurd (ground (arith, jumps, misses, t, same))
      | inr other ↦ elim (Bool-cases (action == go_to_next_step)) [
        | inr quits ↦ absurd (ground (arith, other, quits, goes))
        | inl falls ↦
            let a : above k ys ≡ some v = sym (above-ids k xs ys e) ∙ (rw (other, falls) at goes) in
            absurd (ground (arith, other, falls, a, misses, same))
      ]
    ]
