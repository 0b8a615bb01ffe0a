-- ===== src/Commands/Payloads.antt =====
-- packages/server/src/domain/commands.ts: `buildProtoCommand`, which maps a stored payload onto the
-- wire. `Number(...)` of a stored value is a parameter; the clock and UUIDs are arguments.
use remote_sql_agent.Prelude.{
  ℕ, ◌*◌, ◌/◌, ◌%◌, ◌≡◌, refl, if◌then◌else◌, Bool, false, String, str_eq, Option, none, some, [],
  ◌∷◌,
}
use remote_sql_agent.Capabilities.{CommandKind}
use remote_sql_agent.Signing.{Command, Payload, Timestamp, command_kind}
use remote_sql_agent.Commands.Rows.{Field, text, flag, Fields}

abbrev pub field : Fields → String → Option Field
field [] key = none
field ((k, v) ∷ rest) key = if str_eq k key then some v else field rest key

abbrev text_of : Option Field → String
text_of (some (text s)) = s
text_of _ = ""

-- `str(key)`: the value if it is a string, and else the empty text.
unfoldable pub str : Fields → String → String
str payload key = text_of (field payload key)

abbrev true_of : Option Field → Bool
true_of (some (flag b)) = b
true_of _ = false

-- `payload[key] === true`.
unfoldable pub is_true : Fields → String → Bool
is_true payload key = true_of (field payload key)

abbrev number_of : (Field → ℕ) → Option Field → ℕ
number_of to_number none = 0
number_of to_number (some v) = to_number v

module _ (to_number : Field → ℕ) where
  unfoldable pub build_payload : CommandKind → Fields → Payload
  unfolding str is_true
  build_payload CommandKind.toggle_job p =
      Payload.toggle_job (str p "jobUuid") (is_true p "enabled") (str p "baseDefinitionHash")
  build_payload CommandKind.run_job p = Payload.run_job (str p "jobUuid") (str p "stepName")
  build_payload CommandKind.stop_job p = Payload.stop_job (str p "jobUuid")
  build_payload CommandKind.upsert_job p =
      Payload.upsert_job (str p "jobUuid") (str p "canonicalJson") (str p "baseDefinitionHash")
        (is_true p "allowOverwrite")
  build_payload CommandKind.delete_job p =
      Payload.delete_job (str p "jobUuid") (str p "baseDefinitionHash")
  build_payload CommandKind.upsert_schedule p =
      Payload.upsert_schedule (str p "scheduleName") (str p "canonicalJson")
        (str p "baseDefinitionHash")
  build_payload CommandKind.delete_schedule p =
      Payload.delete_schedule (str p "scheduleName") (str p "baseDefinitionHash")
  build_payload CommandKind.upsert_operator p =
      Payload.upsert_operator (number_of to_number (field p "operatorId")) (str p "canonicalJson")
        (str p "baseDefinitionHash")
  build_payload CommandKind.delete_operator p =
      Payload.delete_operator (number_of to_number (field p "operatorId"))
        (str p "baseDefinitionHash")
  build_payload CommandKind.set_job_write_allowed p =
      Payload.set_job_write_allowed (str p "jobUuid") (str p "jobName") (is_true p "allowed")

  -- `toTimestamp(new Date())` for a time in milliseconds.
  abbrev pub to_timestamp : ℕ → Timestamp
  to_timestamp ms = record { seconds = ms / 1000; nanos = ms % 1000 * 1000000 }

  unfoldable pub build_proto_command : String → CommandKind → String → Fields → ℕ → Command
  unfolding build_payload
  build_proto_command id kind instance_name payload now = record {
    id = id;
    issued_at = some (to_timestamp now);
    instance_name = instance_name;
    signature = [];
    payload = some (build_payload kind payload);
  }

  -- The kind that a worker reads off the wire is the kind of the stored command, for every kind.
  pub command_kind-build_proto_command :
      (id : String) (kind : CommandKind) (instance_name : String) (payload : Fields) (now : ℕ)
      → command_kind (build_proto_command id kind instance_name payload now) ≡ some kind
  unfolding command_kind build_proto_command
  command_kind-build_proto_command id CommandKind.toggle_job instance_name payload now = refl
  command_kind-build_proto_command id _ instance_name payload now = refl
