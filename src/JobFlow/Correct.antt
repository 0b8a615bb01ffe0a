-- ===== src/JobFlow/Correct.antt =====
-- packages/protocol/src/job-flow.ts: the search of `reachableSteps` against the flow of the job.
use remote_sql_agent.Prelude.{
  ℕ, zero, suc, ◌+◌, ◌*◌, ◌≤◌, ◌≡◌, refl, ap, subst, ◌⊎◌, inl, inr, ◌↔◌, Bool, true, false, none,
  some, List, [], ◌∷◌, ◌++◌, arith, length, Elem, Elem-append, includes, includes_iff, Option-cases,
  Bool-cases, List-cases, is_some,
}
use remote_sql_agent.Job.{JobDefinition, JobStep}
use remote_sql_agent.JobFlow.{
  next_step_after, step_by_id, push_unseen, Search, visit, search_loop, search_fuel,
  reachable_steps,
}
use remote_sql_agent.JobFlow.Reach.{
  Reaches, start, follow, push_unseen_sound, push_unseen_complete, push_unseen_keeps,
  length-push_unseen, unseen, unseen-nil, unseen-concat,
}

module _ (d : JobDefinition) where
  abbrev work : Search → ℕ
  work s = 2 * unseen s.seen d.steps + length s.queue

  visit-work :
      (s : Search) (id : ℕ) (rest : List ℕ)
      → work (visit d (record s { queue = rest }) id) ≤ 2 * unseen s.seen d.steps + length rest
  unfolding visit
  visit-work s id rest = elim (Bool-cases (includes s.seen id)) [
    | inl old ↦ rw (old, visit) (omega arith)
    | inr new ↦ elim (Option-cases (step_by_id d.steps id)) [
      | inl gone ↦ rw (new, gone, visit) (omega arith)
      | inr (t, found) ↦
          let seen = s.seen ++ id ∷ [] in
          let first = push_unseen seen (next_step_after d t true) rest in
          rw (new, found, visit)
            (omega (
              arith,
              unseen-concat s.seen id d.steps t new found,
              length-push_unseen seen (next_step_after d t true) rest,
              length-push_unseen seen (next_step_after d t false) first,
            ))
    ]
  ]

  -- With fuel for the work that is left, the loop returns.
  loop_returns :
      (fuel : ℕ) (s : Search) → work s ≤ fuel → (l : List ℕ) × (search_loop d fuel s ≡ some l)
  unfolding search_loop
  loop_returns zero s h = elim (List-cases s.queue) [
    | inl e ↦ (s.seen, rw (e, search_loop))
    | inr (id, rest, e) ↦ absurd (omega (arith, ap length e))
  ]
  loop_returns (suc fuel) s h = elim (List-cases s.queue) [
    | inl e ↦ (s.seen, rw (e, search_loop))
    | inr (id, rest, e) ↦
        let (l, r) =
          loop_returns fuel (visit d (record s { queue = rest }) id)
            (omega (arith, visit-work s id rest, ap length e)) in
        (l, ground arith)
  ]

  record Inv (s : Search) : Type 0 where
    marked : (v : ℕ) → Elem v s.seen → Reaches d v × (is_some (step_by_id d.steps v) ≡ true)
    queued : (v : ℕ) → Elem v s.queue → Reaches d v
    source :
        Elem d.start_step_id s.seen
        ⊎ (Elem d.start_step_id s.queue ⊎ (step_by_id d.steps d.start_step_id ≡ none))
    closed :
        (u v : ℕ) (t : JobStep) (b : Bool)
        → Elem u s.seen
        → step_by_id d.steps u ≡ some t
        → next_step_after d t b ≡ some v
        → Elem v s.seen ⊎ (Elem v s.queue ⊎ (step_by_id d.steps v ≡ none))

  expand-Inv :
      (s : Search) (id : ℕ) (rest : List ℕ) (t : JobStep)
      → s.queue ≡ id ∷ rest
      → step_by_id d.steps id ≡ some t
      → Inv s
      → let seen = s.seen ++ id ∷ [] in
        Inv (record {
          seen = seen;
          queue =
              push_unseen seen
                (next_step_after d t false)
                (push_unseen seen (next_step_after d t true) rest);
        })
  expand-Inv s id rest t e found inv =
      let seen = s.seen ++ id ∷ [] in
      let o₁ = next_step_after d t true in
      let o₂ = next_step_after d t false in
      let q₁ = push_unseen seen o₁ rest in
      let here : Reaches d id = inv.queued id (ground arith) in
      let kept : (v : ℕ) → Elem v rest → Elem v (push_unseen seen o₂ q₁) =
        λ v h. push_unseen_keeps seen o₂ q₁ v (push_unseen_keeps seen o₁ rest v h) in
      let branches : (v : ℕ) (b : Bool)
          → next_step_after d t b ≡ some v
          → Elem v seen ⊎ (Elem v (push_unseen seen o₂ q₁) ⊎ (step_by_id d.steps v ≡ none)) =
        λ v. elim [
          | true ↦ λ r.
              ground (arith, push_unseen_complete seen o₁ rest v r, push_unseen_keeps seen o₂ q₁ v)
          | false ↦ λ r. ground (arith, push_unseen_complete seen o₂ q₁ v r)
        ] in
      record {
        marked = λ v h. ground (arith, Elem-append v s.seen (id ∷ []), inv.marked v);
        queued = λ v h. elim (push_unseen_sound seen o₂ q₁ v h) [
          | inl h₁ ↦ elim (push_unseen_sound seen o₁ rest v h₁) [
            | inl h₂ ↦ inv.queued v (ground arith)
            | inr e₁ ↦ follow t true here found e₁
          ]
          | inr e₂ ↦ follow t false here found e₂
        ];
        source =
            ground (
              arith,
              inv.source,
              Elem-append d.start_step_id s.seen (id ∷ []),
              kept d.start_step_id,
            );
        closed = λ u v t' b p q r. elim ((Elem-append u s.seen (id ∷ [])).0 p) [
          | inl before ↦
              ground (arith, inv.closed u v t' b before q r, Elem-append v s.seen (id ∷ []), kept v)
          | inr now ↦ branches v b (ground arith)
        ];
      }

  visit-Inv :
      (s : Search) (id : ℕ) (rest : List ℕ)
      → s.queue ≡ id ∷ rest
      → Inv s
      → Inv (visit d (record s { queue = rest }) id)
  unfolding visit
  visit-Inv s id rest e inv = elim (Bool-cases (includes s.seen id)) [
    | inl old ↦
        rw (old, visit)
          (record {
            marked = inv.marked;
            queued = λ v h. inv.queued v (ground arith);
            source = ground (arith, inv.source, includes_iff s.seen id);
            closed =
                λ u v t b p q r. ground (arith, inv.closed u v t b p q r, includes_iff s.seen id);
          })
    | inr new ↦ elim (Option-cases (step_by_id d.steps id)) [
      | inl gone ↦
          rw (new, gone, visit)
            (record {
              marked = inv.marked;
              queued = λ v h. inv.queued v (ground arith);
              source = ground (arith, inv.source);
              closed = λ u v t b p q r. ground (arith, inv.closed u v t b p q r);
            })
      | inr (t, found) ↦ rw (new, found, visit) (expand-Inv s id rest t e found inv)
    ]
  ]

  loop-Inv :
      (fuel : ℕ) (s : Search) (l : List ℕ)
      → Inv s
      → search_loop d fuel s ≡ some l
      → Inv (record { seen = l; queue = [] })
  unfolding search_loop
  loop-Inv zero s l inv h = elim (List-cases s.queue) [
    | inl e ↦ let same : s ≡ record { seen = l; queue = [] } = ground arith in subst Inv same inv
    | inr (id, rest, e) ↦ absurd (ground arith)
  ]
  loop-Inv (suc fuel) s l inv h = elim (List-cases s.queue) [
    | inl e ↦ let same : s ≡ record { seen = l; queue = [] } = ground arith in subst Inv same inv
    | inr (id, rest, e) ↦
        loop-Inv fuel (visit d (record s { queue = rest }) id) l (visit-Inv s id rest e inv)
          (ground arith)
  ]

  start-Inv : Inv (record { seen = []; queue = d.start_step_id ∷ [] })
  start-Inv = record {
    marked = λ v h. absurd h;
    queued = λ v h. elim h [ inl e ↦ rw e start | inr h ↦ absurd h ];
    source = inr (inl (inl refl));
    closed = λ u v t b p q r. absurd p;
  }

  complete :
      (l : List ℕ) (v : ℕ)
      → Inv (record { seen = l; queue = [] })
      → Reaches d v
      → Elem v l ⊎ (step_by_id d.steps v ≡ none)
  complete l _ inv start = ground (arith, inv.source)
  complete l _ inv (follow {u} {v} s b r e n) = elim (complete l u inv r) [
    | inl seen ↦ ground (arith, inv.closed u v s b seen e n)
    | inr gone ↦ absurd (ground arith)
  ]

  abbrev first : Search
  first = record { seen = []; queue = d.start_step_id ∷ [] }

  search_ends : (l : List ℕ) × (search_loop d (search_fuel d) first ≡ some l)
  search_ends = loop_returns (search_fuel d) first (omega (arith, unseen-nil d.steps))

-- The search returns within its fuel, for every definition.
pub search_loop_returns :
    (d : JobDefinition)
    → (l : List ℕ) × (search_loop d
          (search_fuel d)
          (record { seen = []; queue = d.start_step_id ∷ [] })
        ≡ some l)
search_loop_returns d = search_ends d

-- A step id is in the answer of `reachableSteps` exactly when the job's flow can arrive at it from
-- the start step, along success and failure branches, and a step of that id exists.
pub reachable_steps_iff :
    (d : JobDefinition) (v : ℕ)
    → (includes (reachable_steps d) v ≡ true)
      ↔ (Reaches d v × (is_some (step_by_id d.steps v) ≡ true))
unfolding reachable_steps
reachable_steps_iff d v =
    let (l, e) = search_ends d in
    let inv = loop-Inv d (search_fuel d) (first d) l (start-Inv d) e in
    rw e (
      λ h. inv.marked v ((includes_iff l v).0 h),
      λ (r, s).
          (includes_iff l v).1
            (elim (complete d l v inv r) [ inl m ↦ m | inr gone ↦ absurd (ground arith) ]),
    )
