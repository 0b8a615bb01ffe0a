-- ===== src/Snapshots/Chunks.antt =====
-- packages/worker/src/instance-monitor.ts: the chunks of `sendSnapshot`. The schedules, operators and alerts of a snapshot,
-- which the worker leaves empty, are left out.
use remote_sql_agent.Prelude.{
  ℕ, zero, suc, ◌≤◌, ◌≡◌, refl, ap, ◌∙◌, Bool, true, false, String, List, [], ◌∷◌, ◌++◌, take, drop,
  take-append-drop, length, length-drop, arith,
}
use remote_sql_agent.Worker.Msdb.{JobDefinitionBlob}

abbrev pub Blobs : Type 0
Blobs = List JobDefinitionBlob

pub record Snapshot : Type 0 where
  pub snapshot_id : String
  pub instance_name : String
  pub more_chunks : Bool
  pub jobs : Blobs

abbrev pub snapshot_chunk_size : ℕ
snapshot_chunk_size = 25

-- The loop over `i`, with fuel for the rounds: `slice(i, i + SNAPSHOT_CHUNK_SIZE)`.
unfoldable pub slices : ℕ → Blobs → List Blobs
slices zero blobs = []
slices (suc fuel) [] = []
slices (suc fuel) (b ∷ blobs) =
    take snapshot_chunk_size (b ∷ blobs) ∷ slices fuel (drop snapshot_chunk_size (b ∷ blobs))

-- An estate without jobs is one empty chunk.
abbrev pub or_one_chunk : List Blobs → List Blobs
or_one_chunk [] = [] ∷ []
or_one_chunk (c ∷ cs) = c ∷ cs

unfoldable pub chunks : Blobs → List Blobs
unfolding slices
chunks blobs = or_one_chunk (slices (length blobs) blobs)

-- The messages: `moreChunks` holds of all but the last.
unfoldable pub to_messages : String → String → List Blobs → List Snapshot
to_messages id name [] = []
to_messages id name (c ∷ []) =
    record { snapshot_id = id; instance_name = name; more_chunks = false; jobs = c } ∷ []
to_messages id name (c ∷ d ∷ cs) =
    record { snapshot_id = id; instance_name = name; more_chunks = true; jobs = c }
    ∷ to_messages id name (d ∷ cs)

unfoldable pub snapshot_messages : String → String → Blobs → List Snapshot
unfolding chunks to_messages
snapshot_messages id name blobs = to_messages id name (chunks blobs)

abbrev pub concat : List Blobs → Blobs
concat [] = []
concat (c ∷ cs) = c ++ concat cs

-- The fuel is enough: the slices hold every job, in order.
concat-slices :
    (fuel : ℕ) (blobs : Blobs) → length blobs ≤ fuel → concat (slices fuel blobs) ≡ blobs
unfolding slices
concat-slices zero [] h = refl
concat-slices zero (b ∷ blobs) h = absurd (omega (arith, h))
concat-slices (suc fuel) [] h = refl
concat-slices (suc fuel) (b ∷ blobs) h =
    let rest : length (drop 24 blobs) ≤ fuel = omega (arith, h, length-drop 24 blobs) in
    ap (λ s. take snapshot_chunk_size (b ∷ blobs) ++ s) (concat-slices fuel (drop 24 blobs) rest)
    ∙ take-append-drop snapshot_chunk_size (b ∷ blobs)

concat-or_one_chunk : (cs : List Blobs) → concat (or_one_chunk cs) ≡ concat cs
concat-or_one_chunk [] = refl
concat-or_one_chunk (c ∷ cs) = refl

pub concat-chunks : (blobs : Blobs) → concat (chunks blobs) ≡ blobs
unfolding chunks
concat-chunks blobs =
    concat-or_one_chunk (slices (length blobs) blobs)
    ∙ concat-slices (length blobs) blobs (omega arith)
