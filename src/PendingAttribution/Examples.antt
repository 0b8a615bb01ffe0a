-- ===== src/PendingAttribution/Examples.antt =====
-- Instances for the attributions: one entry that is over and one that is live when a third is set.
use remote_sql_agent.Prelude.{ℕ, ◌≡◌, refl, String, [], ◌∷◌}
use remote_sql_agent.PendingAttribution.{Entry, PendingAttributionMap, set, size, sweep}

abbrev entry : String → String → ℕ → Entry
entry u c at = record { job_uuid = u; command_id = c; set_at = at }

abbrev pending : PendingAttributionMap
pending = record { entries = entry "j1" "c1" 0 ∷ entry "j2" "c2" 900 ∷ []; ttl_ms = 500 }

swept_size : size (set "j3" "c3" 1000 pending) ≡ 2
unfolding size set sweep
swept_size = refl
