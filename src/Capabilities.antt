-- ===== src/Capabilities.antt =====
-- packages/protocol/src/capabilities.ts: what a worker may be asked to do.
pub mod Ceiling
mod Examples
use remote_sql_agent.Prelude.{
  ◌≡◌, Bool, String, str_eq, List, [], ◌∷◌, Option, none, some, find, filter, has, add,
}

pub data Capability : Type 0 where
  observe job_toggle job_run schedule_write job_write operator_write : Capability

unfoldable pub Capability-discrete : Discrete Capability
Capability-discrete = hlevel

-- The strings of `CAPABILITIES`.
unfoldable pub capability_name : Capability → String
capability_name observe = "observe"
capability_name job_toggle = "job.toggle"
capability_name job_run = "job.run"
capability_name schedule_write = "schedule.write"
capability_name job_write = "job.write"
capability_name operator_write = "operator.write"

abbrev pub capabilities : List Capability
capabilities = observe ∷ job_toggle ∷ job_run ∷ schedule_write ∷ job_write ∷ operator_write ∷ []

-- `isCapability`, with the capability that the string stands for.
unfoldable pub as_capability : String → Option Capability
unfolding capability_name
as_capability s = find (λ c. str_eq (capability_name c) s) capabilities

abbrev pub always_granted : List Capability
always_granted = observe ∷ []

pub data Tier : Type 0 where
  read_only operate schedule full : Tier

-- `MAX_CAPABILITY_TIERS`.
unfoldable pub tier_capabilities : Tier → List Capability
tier_capabilities read_only = observe ∷ []
tier_capabilities operate = observe ∷ job_toggle ∷ job_run ∷ []
tier_capabilities schedule = observe ∷ job_toggle ∷ job_run ∷ schedule_write ∷ []
tier_capabilities full =
    observe ∷ job_toggle ∷ job_run ∷ schedule_write ∷ job_write ∷ operator_write ∷ []

-- `isMaxCapabilityTier`, with the tier that the string names.
unfoldable pub tier_name : Tier → String
tier_name read_only = "readOnly"
tier_name operate = "operate"
tier_name schedule = "schedule"
tier_name full = "full"

-- `value in MAX_CAPABILITY_TIERS`, on the tiers' own names; the keys that every object inherits are left out.
unfoldable pub as_tier : String → Option Tier
unfolding tier_name
as_tier s = find (λ t. str_eq (tier_name t) s) (read_only ∷ operate ∷ schedule ∷ full ∷ [])

-- One round of the loop over `serverGrant`: an unknown string, or one above the ceiling, is dropped.
unfoldable pub grant_one : Tier → List Capability → String → List Capability
unfolding as_capability tier_capabilities Capability-discrete
grant_one t granted s = elim (as_capability s) [
  | none ↦ granted
  | some c ↦ elim (has Capability-discrete (tier_capabilities t) c) [
    | Bool.true ↦ add Capability-discrete granted c
    | Bool.false ↦ granted
  ]
]

unfoldable pub grant_all : Tier → List Capability → List String → List Capability
unfolding grant_one
grant_all t granted [] = granted
grant_all t granted (s ∷ rest) = grant_all t (grant_one t granted s) rest

unfoldable pub effective_capabilities : List String → Tier → List Capability
unfolding grant_all Capability-discrete
effective_capabilities server_grant ceiling =
    filter (has Capability-discrete (grant_all ceiling always_granted server_grant)) capabilities

-- The payload cases of a command, `CommandKind`.
pub data CommandKind : Type 0 where
  toggle_job run_job stop_job upsert_job delete_job : CommandKind
  upsert_schedule delete_schedule upsert_operator delete_operator : CommandKind
  set_job_write_allowed : CommandKind

unfoldable pub CommandKind-discrete : Discrete CommandKind
CommandKind-discrete = hlevel

-- `COMMAND_CAPABILITY`.
unfoldable pub command_capability : CommandKind → Capability
command_capability toggle_job = job_toggle
command_capability run_job = job_run
command_capability stop_job = job_run
command_capability upsert_job = job_write
command_capability delete_job = job_write
command_capability upsert_schedule = schedule_write
command_capability delete_schedule = schedule_write
command_capability upsert_operator = operator_write
command_capability delete_operator = operator_write
command_capability set_job_write_allowed = job_write

-- `APPROVAL_REQUIRED_BY_DEFAULT`.
abbrev pub approval_required_by_default : List CommandKind
approval_required_by_default = upsert_job ∷ delete_job ∷ upsert_operator ∷ delete_operator ∷ []
