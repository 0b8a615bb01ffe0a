-- ===== src/Registry/Examples.antt =====
-- Instances for the registry: a worker that reconnects.
use remote_sql_agent.Prelude.{ℕ, ◌≡◌, ◌≢◌, some, [], arith}
use remote_sql_agent.Registry.{LiveWorker, WorkerRegistry, get, register, unregister}
use remote_sql_agent.Registry.Sessions.{unregister-register}

abbrev worker : ℕ → LiveWorker
worker session = record { session = session; worker_id = "w1"; host_name = "host" }

abbrev nobody : WorkerRegistry
nobody = record { by_worker_id = []; disconnected = [] }

abbrev connected : WorkerRegistry
connected = (register (worker 1) nobody).1

two-ne-one : (worker 2).session ≢ 1
two-ne-one e = absurd (omega (arith, e))

unregister-register_example :
    (unregister "w1" 1 (register (worker 2) connected).1 ≡ (register (worker 2) connected).1)
    × (get (register (worker 2) connected).1 "w1" ≡ some (worker 2))
unregister-register_example = unregister-register (worker 2) 1 connected two-ne-one
