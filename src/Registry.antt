-- ===== src/Registry.antt =====
-- packages/server/src/hub/registry.ts: the live sessions. A session object is known by a number of its own, so that
-- `===` on sessions compares those numbers; `disconnect` is a row of the list of disconnected sessions.
pub mod Sessions
mod Examples
use remote_sql_agent.Prelude.{
  ℕ, ◌==◌, if◌then◌else◌, Bool, true, false, not, String, str_eq, Option, none, some, is_some, List,
  [], ◌∷◌, ◌++◌, map, filter, find, length,
}

pub record LiveWorker : Type 0 where
  pub session : ℕ
  pub worker_id : String
  pub host_name : String

pub record WorkerRegistry : Type 0 where
  pub by_worker_id : List LiveWorker
  pub disconnected : List ℕ

abbrev pub is_worker : String → LiveWorker → Bool
is_worker worker_id w = str_eq w.worker_id worker_id

unfoldable pub get : WorkerRegistry → String → Option LiveWorker
get registry worker_id = find (is_worker worker_id) registry.by_worker_id

-- `Map.prototype.set`: an entry that is there keeps its place.
abbrev pub set_worker : LiveWorker → List LiveWorker → List LiveWorker
set_worker w [] = w ∷ []
set_worker w (x ∷ rest) = if is_worker w.worker_id x then w ∷ rest else x ∷ set_worker w rest

-- With the answer whether an older session was superseded.
unfoldable pub register : LiveWorker → WorkerRegistry → Bool × WorkerRegistry
unfolding get
register w registry = elim (get registry w.worker_id) [
  | none ↦ (false, record registry { by_worker_id = set_worker w registry.by_worker_id })
  | some existing ↦
      let superseded = not (existing.session == w.session) in
      (
        superseded,
        record {
          by_worker_id = set_worker w registry.by_worker_id;
          disconnected =
              if superseded
              then registry.disconnected ++ existing.session ∷ []
              else registry.disconnected;
        },
      )
]

-- `Map.prototype.delete`.
abbrev pub delete_worker : String → List LiveWorker → List LiveWorker
delete_worker worker_id workers = filter (λ w. not (is_worker worker_id w)) workers

unfoldable pub unregister : String → ℕ → WorkerRegistry → WorkerRegistry
unfolding get
unregister worker_id session registry = elim (get registry worker_id) [
  | none ↦ registry
  | some w ↦
      if w.session == session
      then record registry { by_worker_id = delete_worker worker_id registry.by_worker_id }
      else registry
]

unfoldable pub is_online : WorkerRegistry → String → Bool
unfolding get
is_online registry worker_id = is_some (get registry worker_id)

unfoldable pub online_worker_ids : WorkerRegistry → List String
online_worker_ids registry = map (λ w. w.worker_id) registry.by_worker_id

unfoldable pub size : WorkerRegistry → ℕ
size registry = length registry.by_worker_id
