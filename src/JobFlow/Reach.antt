-- ===== src/JobFlow/Reach.antt =====
-- packages/protocol/src/job-flow.ts: what it means to arrive at a step, and one round of the search.
use remote_sql_agent.Prelude.{
  ℕ, suc, ◌≤◌, ◌≡◌, refl, ◌⊎◌, inl, inr, ◌↔◌, Bool, true, false, if◌then◌else◌, ◌==◌, Option, none,
  some, List, [], ◌∷◌, ◌++◌, arith, length, Elem, Elem-append, includes, includes_iff, find_last,
  Option-cases,
}
use remote_sql_agent.Job.{JobDefinition, JobStep}
use remote_sql_agent.JobFlow.{next_step_after, step_by_id, push_unseen}

-- The flow arrives at a step id from the start step along success and failure branches.
pub data Reaches (d : JobDefinition) : ℕ → Type 0 where
  start : Reaches d d.start_step_id
  follow :
      {u v : ℕ} (s : JobStep) (succeeded : Bool)
      → Reaches d u
      → step_by_id d.steps u ≡ some s
      → next_step_after d s succeeded ≡ some v
      → Reaches d v

pub push_unseen_sound :
    (seen : List ℕ) (o : Option ℕ) (q : List ℕ) (v : ℕ)
    → Elem v (push_unseen seen o q)
    → Elem v q ⊎ (o ≡ some v)
unfolding push_unseen
push_unseen_sound seen none q v h = inl h
push_unseen_sound seen (some w) q v h = ground arith

pub push_unseen_complete :
    (seen : List ℕ) (o : Option ℕ) (q : List ℕ) (v : ℕ)
    → o ≡ some v
    → Elem v seen ⊎ Elem v (push_unseen seen o q)
unfolding push_unseen
push_unseen_complete seen none q v h = cc
push_unseen_complete seen (some w) q v h = ground (arith, includes_iff seen w)

pub push_unseen_keeps :
    (seen : List ℕ) (o : Option ℕ) (q : List ℕ) (v : ℕ) → Elem v q → Elem v (push_unseen seen o q)
unfolding push_unseen
push_unseen_keeps seen none q v h = h
push_unseen_keeps seen (some w) q v h = ground arith

pub length-push_unseen :
    (seen : List ℕ) (o : Option ℕ) (q : List ℕ) → length (push_unseen seen o q) ≤ suc (length q)
unfolding push_unseen
length-push_unseen seen none q = omega arith
length-push_unseen seen (some w) q = ground arith

-- How many steps the search has not met yet.
abbrev pub unseen : List ℕ → List JobStep → ℕ
unseen seen [] = 0
unseen seen (s ∷ rest) =
    if includes seen s.step_id then unseen seen rest else suc (unseen seen rest)

pub unseen-nil : (steps : List JobStep) → unseen [] steps ≡ length steps
unseen-nil [] = refl
unseen-nil (s ∷ rest) = omega (arith, unseen-nil rest)

includes-concat :
    (seen : List ℕ) (id v : ℕ)
    → (includes (seen ++ id ∷ []) v ≡ true) ↔ ((includes seen v ≡ true) ⊎ (v ≡ id))
includes-concat seen id v =
    ground
      (arith, includes_iff (seen ++ id ∷ []) v, includes_iff seen v, Elem-append v seen (id ∷ []))

unseen-concat-le :
    (seen : List ℕ) (id : ℕ) (steps : List JobStep)
    → unseen (seen ++ id ∷ []) steps ≤ unseen seen steps
unseen-concat-le seen id [] = omega arith
unseen-concat-le seen id (s ∷ rest) =
    ground (arith, unseen-concat-le seen id rest, includes-concat seen id s.step_id)

-- Marking the id of a step that exists makes the unseen steps fewer.
pub unseen-concat :
    (seen : List ℕ) (id : ℕ) (steps : List JobStep) (t : JobStep)
    → includes seen id ≡ false
    → step_by_id steps id ≡ some t
    → suc (unseen (seen ++ id ∷ []) steps) ≤ unseen seen steps
unfolding step_by_id
unseen-concat seen id [] t h e = cc
unseen-concat seen id (s ∷ rest) t h e =
    elim (Option-cases (find_last (λ x. x.step_id == id) rest)) [
      | inl missing ↦
          ground (arith, missing, unseen-concat-le seen id rest, includes-concat seen id s.step_id)
      | inr (u, found) ↦
          ground
            (arith, found, unseen-concat seen id rest u h found, includes-concat seen id s.step_id)
    ]
