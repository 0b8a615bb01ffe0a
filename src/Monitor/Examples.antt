-- ===== src/Monitor/Examples.antt =====
-- Instances for the monitor: two jobs of which one changed, and a history of three rows read in batches of two.
use remote_sql_agent.Prelude.{
  ℕ, ◌+◌, ◌<◌, ◌≡◌, ◌≢◌, refl, max, ◌==◌, if◌then◌else◌, Bool, true, false, String, eq_iff, Option,
  none, some, List, [], ◌∷◌, ◌++◌, map, filter, length, arith,
}
use remote_sql_agent.Ingest.Tables.{HistoryRow}
use remote_sql_agent.Outbox.{Outbox, get_history_high_water_mark}
use remote_sql_agent.Outbox.Hashes.{
  HashEntry, get_hash, set_hash, get_definition_hashes, set_definition_hashes,
}
use remote_sql_agent.PendingAttribution.{get}
use remote_sql_agent.Worker.Msdb.{JobDefinitionBlob}
use remote_sql_agent.Monitor.Emit.{WorkerMessage, Call, Shared, emit, keep}
use remote_sql_agent.Monitor.Definitions.{
  JobsFingerprint, Monitor, Reads, same_time, delta_of, tell_changes, vanished, poll_definitions,
}
use remote_sql_agent.Monitor.Told.{Told}
use remote_sql_agent.Monitor.Polled.{poll_definitions-Told}
use remote_sql_agent.Monitor.Again.{poll_definitions_again}
use remote_sql_agent.Monitor.Reading.{
  SysJobHistory, is_above, records, read_history_since, run_duration_seconds,
}
use remote_sql_agent.Monitor.Polls.{row_of, poll_history}
use remote_sql_agent.Monitor.Suffix.{top_id}
use remote_sql_agent.Monitor.Drained.{concat_rows, batch_calls}
use remote_sql_agent.Monitor.CaughtUp.{poll_history_complete}

abbrev outbox : Outbox
outbox = record {
  rows = [];
  next_id = 1;
  applied_commands = [];
  sync_state = [];
  max_rows = 10;
  evicted = 0;
  last_applied_command_prune_at = 0;
  depth = 0;
}

abbrev idle : Shared
idle = record { calls = []; outbox = outbox }

abbrev blob : String → String → JobDefinitionBlob
blob u h = record { job_uuid = u; canonical_json = "{}"; definition_hash = h; date_modified = 0 }

abbrev monitor : Monitor
monitor = record {
  instance_name = "prod";
  definition_hashes =
      record { job_uuid = "j1"; definition_hash = "h1" }
      ∷ record { job_uuid = "j2"; definition_hash = "h2" }
      ∷ [];
  last_fingerprint = none;
  pending_attribution = record {
    entries = record { job_uuid = "j2"; command_id = "c7"; set_at = 0 } ∷ [];
    ttl_ms = 600000;
  };
}

abbrev fingerprint : JobsFingerprint
fingerprint = record { job_count = 2; max_date_modified = some 9 }

-- The second job was changed.
abbrev reads : Reads
reads = record {
  fingerprint = fingerprint;
  jobs = blob "j1" "h1" ∷ blob "j2" "h3" ∷ [];
  snapshot_id = "s1";
  snapshot_jobs = [];
  snapshot_fingerprint = fingerprint;
}

abbrev stringify : WorkerMessage → String
stringify m = "{}"

abbrev all_taken : List Call → WorkerMessage → Bool
all_taken cs m = true

abbrev none_taken : List Call → WorkerMessage → Bool
none_taken cs m = false

-- A cache of one text, which is read back as it was written.
abbrev of_json : List HashEntry → String → Option (List HashEntry)
of_json hs json = some hs

abbrev delta : JobDefinitionBlob → WorkerMessage
delta b = delta_of "prod" monitor.pending_attribution b

-- The cache after the poll.
abbrev known : List HashEntry
known =
    record { job_uuid = "j1"; definition_hash = "h1" }
    ∷ record { job_uuid = "j2"; definition_hash = "h3" }
    ∷ []

abbrev polled : Monitor × Shared
polled = poll_definitions all_taken stringify (λ hs. "[]") (of_json known) 5 reads monitor idle

cached : of_json known "[]" ≡ some polled.0.definition_hashes
unfolding poll_definitions tell_changes vanished emit get_hash set_hash same_time
cached = refl

filled : ◌≢◌ {A = String} "[]" ""
filled e = absurd (ground (arith, eq_iff "[]" "", e))

none_gone : vanished monitor.definition_hashes reads.jobs ≡ []
unfolding vanished
none_gone = refl

apart : ◌≢◌ {A = String} "j1" "j2"
apart e = absurd (ground (arith, eq_iff "j1" "j2", e))

poll_definitions-Told_example :
    (cs : List Call) × (polled.1.calls ≡ [] ++ cs)
    × Told delta
        (λ b. get_hash monitor.definition_hashes b.job_uuid)
        (λ b. get_hash polled.0.definition_hashes b.job_uuid)
        reads.jobs
        cs
    × (get_definition_hashes (λ hs. "[]") (of_json known) polled.1.outbox "prod"
        ≡ polled.0.definition_hashes)
poll_definitions-Told_example =
    poll_definitions-Told all_taken stringify (λ hs. "[]") (of_json known) 5 reads monitor idle refl
      none_gone ((apart, tt), (tt, tt)) cached filled

poll_definitions_again_example :
    let (m', w') =
      poll_definitions all_taken stringify (λ hs. "[]") (of_json []) 5 reads monitor idle in
    let (m'', w'') = poll_definitions all_taken stringify (λ hs. "[]") (of_json []) 6 reads m' w' in
    (w''.calls ≡ w'.calls) × (m''.definition_hashes ≡ m'.definition_hashes)
poll_definitions_again_example =
    poll_definitions_again all_taken stringify (λ hs. "[]") (of_json []) 5 6 reads reads monitor
      idle (λ cs x. refl) refl none_gone ((apart, tt), (tt, tt)) refl

-- A delta that is refused is not told by the next poll, when nothing else has changed since.
not_retried :
    let (m', w') =
      poll_definitions none_taken stringify (λ hs. "[]") (of_json []) 5 reads monitor idle in
    let (m'', w'') = poll_definitions all_taken stringify (λ hs. "[]") (of_json []) 6 reads m' w' in
    (map (λ c. c.accepted) w'.calls ≡ false ∷ []) × (map (λ c. c.accepted) w''.calls ≡ false ∷ [])
unfolding poll_definitions tell_changes vanished emit keep get_hash delta_of get same_time
    set_definition_hashes
not_retried = (refl, refl)

abbrev ran : ℕ → ℕ → SysJobHistory
ran id date = record {
  instance_id = id;
  job_id = "J1";
  step_id = 0;
  step_name = none;
  run_status = 1;
  run_date = date;
  run_time = 90000;
  run_duration = 13005;
  message = none;
  retries_attempted = 0;
  server = none;
  sql_severity = 0;
  sql_message_id = 0;
}

abbrev agent_datetime : ℕ → ℕ → Option ℕ
agent_datetime date time = if date == 0 then none else some (date + time)

abbrev table : List SysJobHistory
table = ran 4 20260101 ∷ ran 7 20260102 ∷ ran 8 20260103 ∷ []

duration : run_duration_seconds 13005 ≡ 5405
unfolding run_duration_seconds
duration = refl

enough : length (filter (is_above (get_history_high_water_mark outbox "prod")) table) < 4
unfolding get_history_high_water_mark
enough = omega arith

poll_history_complete_example :
    let mark = get_history_high_water_mark outbox "prod" in
    (w' : Shared) × (poll_history none_taken stringify agent_datetime
        (λ s. s)
        4
        9
        "prod"
        table
        2
        idle
      ≡ some w')
    × (batches : List (Bool × List HistoryRow)) × (w'.calls ≡ [] ++ batch_calls "prod" batches)
    × (concat_rows batches
        ≡ map row_of (records agent_datetime (λ s. s) (filter (is_above mark) table)))
    × (get_history_high_water_mark w'.outbox "prod"
        ≡ max mark (top_id (filter (is_above mark) table)))
poll_history_complete_example =
    poll_history_complete none_taken stringify agent_datetime (λ s. s) 4 9 "prod" table 1 idle
      ((omega arith, (omega arith, tt)), ((omega arith, tt), (tt, tt))) (refl, (refl, (refl, tt)))
      enough

-- A full batch of rows without a time reads as the end of the table, in this poll and in every later one.
abbrev no_times : List SysJobHistory
no_times = ran 4 0 ∷ ran 7 0 ∷ ran 8 20260103 ∷ []

stalled :
    poll_history all_taken stringify agent_datetime (λ s. s) 4 9 "prod" no_times 2 idle ≡ some idle
unfolding poll_history read_history_since records get_history_high_water_mark
stalled = refl
