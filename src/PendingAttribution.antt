-- ===== src/PendingAttribution.antt =====
-- packages/worker/src/pending-attribution.ts: the class PendingAttributionMap. The map is a list with one entry to a key, in
-- the order of insertion; `setAt > now - ttl` is written without a difference that stops at 0. noteAppliedCommand of
-- packages/worker/src/instance-monitor.ts calls `set` with the id in lower case; ids are in lower case here already.
pub mod Live
mod Examples
use remote_sql_agent.Prelude.{
  ℕ, ◌+◌, ltb, if◌then◌else◌, Bool, true, false, not, String, str_eq, Option, none, some, List, [],
  ◌∷◌, ◌++◌, filter, find, length, any, update_where,
}

pub record Entry : Type 0 where
  pub job_uuid : String
  pub command_id : String
  pub set_at : ℕ

pub record PendingAttributionMap : Type 0 where
  pub entries : List Entry
  pub ttl_ms : ℕ

abbrev pub is_of : String → Entry → Bool
is_of job_uuid e = str_eq e.job_uuid job_uuid

abbrev pub is_live : ℕ → ℕ → Entry → Bool
is_live ttl now e = ltb now (e.set_at + ttl)

-- `#sweep`.
unfoldable pub sweep : ℕ → PendingAttributionMap → PendingAttributionMap
sweep now m = record m { entries = filter (is_live m.ttl_ms now) m.entries }

-- `Map.prototype.set`: an entry that is there keeps its place.
abbrev pub put : Entry → List Entry → List Entry
put e es =
    if any (is_of e.job_uuid) es then update_where (is_of e.job_uuid) (λ x. e) es else es ++ e ∷ []

unfoldable pub set : String → String → ℕ → PendingAttributionMap → PendingAttributionMap
unfolding sweep
set job_uuid command_id now m = record m {
  entries =
      put (record { job_uuid = job_uuid; command_id = command_id; set_at = now })
        (sweep now m).entries;
}

abbrev pub command_of : Option Entry → Option String
command_of none = none
command_of (some e) = some e.command_id

unfoldable pub get : String → PendingAttributionMap → Option String
get job_uuid m = command_of (find (is_of job_uuid) m.entries)

unfoldable pub delete : String → PendingAttributionMap → PendingAttributionMap
delete job_uuid m = record m { entries = filter (λ e. not (is_of job_uuid e)) m.entries }

unfoldable pub size : PendingAttributionMap → ℕ
size m = length m.entries
