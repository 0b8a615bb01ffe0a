-- ===== src/Registry/Sessions.antt =====
-- packages/server/src/hub/registry.ts: a session and the one that replaces it.
use remote_sql_agent.Prelude.{
  ℕ, ◌==◌, ◌≡◌, refl, ◌≢◌, inl, inr, true, false, String, eq_iff, none, some, List, [], ◌∷◌, find,
  arith, Bool-cases, Option-cases,
}
use remote_sql_agent.Registry.{
  LiveWorker, WorkerRegistry, is_worker, get, set_worker, register, delete_worker, unregister,
}

find-set_worker :
    (w : LiveWorker) (ws : List LiveWorker)
    → find (is_worker w.worker_id) (set_worker w ws) ≡ some w
find-set_worker w [] = rw ((eq_iff w.worker_id w.worker_id).1 refl)
find-set_worker w (x ∷ ws) = elim (Bool-cases (is_worker w.worker_id x)) [
  | inl hit ↦ rw (hit, (eq_iff w.worker_id w.worker_id).1 refl)
  | inr miss ↦ ground (arith, miss, find-set_worker w ws)
]

pub get-register :
    (w : LiveWorker) (registry : WorkerRegistry) → get (register w registry).1 w.worker_id ≡ some w
unfolding register get
get-register w registry = elim (Option-cases (find (is_worker w.worker_id) registry.by_worker_id)) [
  | inl e ↦ rw (e, register) (find-set_worker w registry.by_worker_id)
  | inr (x, e) ↦ rw (e, register) (find-set_worker w registry.by_worker_id)
]

unregister_other :
    (id : String) (old : ℕ) (registry : WorkerRegistry) (w : LiveWorker)
    → get registry id ≡ some w
    → (w.session == old) ≡ false
    → unregister id old registry ≡ registry
unfolding unregister
unregister_other id old registry w found other = rw (found, other, unregister)

find-delete_worker :
    (id : String) (ws : List LiveWorker) → find (is_worker id) (delete_worker id ws) ≡ none
find-delete_worker id [] = refl
find-delete_worker id (x ∷ ws) = ground (arith, find-delete_worker id ws)

unregister_found :
    (id : String) (session : ℕ) (registry : WorkerRegistry) (w : LiveWorker)
    → get registry id ≡ some w
    → (w.session == session) ≡ true
    → get (unregister id session registry) id ≡ none
unfolding unregister get
unregister_found id session registry w found same =
    rw (found, same, unregister) (find-delete_worker id registry.by_worker_id)

-- The teardown of another session of the worker, as a superseded one, changes nothing: the session that was
-- registered last is still the one that is found.
pub unregister-register :
    (w : LiveWorker) (old : ℕ) (registry : WorkerRegistry)
    → w.session ≢ old
    → (unregister w.worker_id old (register w registry).1 ≡ (register w registry).1)
      × (get (register w registry).1 w.worker_id ≡ some w)
unregister-register w old registry apart =
    let found = get-register w registry in
    let other : (w.session == old) ≡ false = ground (arith, apart) in
    (unregister_other w.worker_id old (register w registry).1 w found other, found)

-- The teardown of the registered session takes the worker offline.
pub unregister-own :
    (w : LiveWorker) (registry : WorkerRegistry)
    → get (unregister w.worker_id w.session (register w registry).1) w.worker_id ≡ none
unregister-own w registry =
    unregister_found w.worker_id w.session (register w registry).1 w (get-register w registry)
      (ground arith)
