-- ===== src/Capabilities/Examples.antt =====
-- Tests and instances for the capability model.
use remote_sql_agent.Prelude.{◌≡◌, refl, ◌↔◌, ◌⊎◌, String, List, [], ◌∷◌, Elem}
use remote_sql_agent.Capabilities.{
  capability_name, tier_capabilities, effective_capabilities, operate, observe, job_run,
}
use remote_sql_agent.Capabilities.Ceiling.{Elem-effective_capabilities}

abbrev grants : List String
grants = "job.run" ∷ "job.write" ∷ "future.power" ∷ []

effective_test : effective_capabilities grants operate ≡ observe ∷ job_run ∷ []
unfolding effective_capabilities
effective_test = refl

Elem-effective_capabilities_example : Elem job_run (effective_capabilities grants operate) ↔ (
    (job_run ≡ observe)
    ⊎ (Elem (capability_name job_run) grants × Elem job_run (tier_capabilities operate)))
Elem-effective_capabilities_example = Elem-effective_capabilities grants operate job_run
