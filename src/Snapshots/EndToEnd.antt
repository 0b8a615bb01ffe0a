-- ===== src/Snapshots/EndToEnd.antt =====
-- A snapshot from the worker's read of msdb (`sendSnapshot` of packages/worker/src/instance-monitor.ts) to the rows of the
-- control plane (`handleSnapshotChunk` of packages/server/src/hub/hub.ts).
use remote_sql_agent.Prelude.{
  ℕ, ◌+◌, ◌-◌, ◌<◌, ◌≡◌, sym, subst, codes, String, none, ◌∷◌, ◌++◌, find, length,
}
use remote_sql_agent.Monitor.Told.{AreDistinct}
use remote_sql_agent.Snapshots.Chunks.{Blobs, snapshot_messages}
use remote_sql_agent.Snapshots.Pending.{Deps, Hub, is_key}
use remote_sql_agent.Snapshots.Reassembled.{deliver, snapshot_applied_once}
use remote_sql_agent.Snapshots.Mirrored.{DoParse, HoldsExactly, apply_snapshot-HoldsExactly}

-- After the chunks of a snapshot that the server does not know yet, all handled within the time after which it is given up,
-- with definitions that parse and no two jobs with an id in common: each job that the worker read has a live row, with the
-- hash of its canonical text as the server computes it, and each live row of the instance is of such a job.
pub snapshot_mirrored :
    (deps : Deps) (instance_id : String) (clock : ℕ → ℕ) (id name : String) (blobs : Blobs)
    (hub : Hub)
    → let ms = snapshot_messages id name blobs in
      find (is_key (codes name ++ (b':' ∷ codes id))) hub.pending ≡ none
      → ((k : ℕ) → k < length ms → clock k < clock 0 + 600000)
      → AreDistinct blobs
      → DoParse deps instance_id blobs
      → HoldsExactly deps instance_id blobs (deliver deps instance_id clock 0 ms hub).1.store
snapshot_mirrored deps instance_id clock id name blobs hub unknown early distinct p =
    let ms = snapshot_messages id name blobs in
    let (_, store) = snapshot_applied_once deps instance_id clock id name blobs hub unknown early in
    let (_, holds) =
      apply_snapshot-HoldsExactly deps instance_id (clock (length ms - 1)) blobs hub.store distinct
        p in
    subst (HoldsExactly deps instance_id blobs) (sym store) holds
