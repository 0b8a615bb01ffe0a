-- ===== src/Signing.antt =====
-- packages/protocol/src/signing.ts and timestamp.ts: the command on the wire, the bytes that are signed,
-- the check of a signature and the replay window. UTF-8, SHA-256, the canonical JSON of a payload and the
-- RSA check are the platform's and enter as parameters.
pub mod Splicing
mod Examples
use remote_sql_agent.Prelude.{
  ℕ, ◌+◌, ◌*◌, ◌/◌, ◌%◌, leb, if◌then◌else◌, Bool, true, false, ◌&&◌, String, Option, none, some,
  List, [], ◌∷◌, ◌++◌, length, decimal,
}
use remote_sql_agent.Capabilities.{CommandKind}

pub record Timestamp : Type 0 where
  pub seconds : ℕ
  pub nanos : ℕ

-- `fromTimestamp(ts).getTime()`, with `Math.round` on the half millisecond.
abbrev pub to_ms : Timestamp → ℕ
to_ms t = t.seconds * 1000 + (t.nanos + 500000) / 1000000

-- The payload of a command: the `oneof` of the wire contract.
pub data Payload : Type 0 where
  toggle_job : String → Bool → String → Payload
  run_job : String → String → Payload
  stop_job : String → Payload
  upsert_job : String → String → String → Bool → Payload
  delete_job : String → String → Payload
  upsert_schedule : String → String → String → Payload
  delete_schedule : String → String → Payload
  upsert_operator : ℕ → String → String → Payload
  delete_operator : ℕ → String → Payload
  set_job_write_allowed : String → String → Bool → Payload

pub record Command : Type 0 where
  pub id : String
  pub issued_at : Option Timestamp
  pub instance_name : String
  pub signature : List ℕ
  pub payload : Option Payload

unfoldable pub payload_kind : Payload → CommandKind
payload_kind (Payload.toggle_job _ _ _) = CommandKind.toggle_job
payload_kind (Payload.run_job _ _) = CommandKind.run_job
payload_kind (Payload.stop_job _) = CommandKind.stop_job
payload_kind (Payload.upsert_job _ _ _ _) = CommandKind.upsert_job
payload_kind (Payload.delete_job _ _) = CommandKind.delete_job
payload_kind (Payload.upsert_schedule _ _ _) = CommandKind.upsert_schedule
payload_kind (Payload.delete_schedule _ _) = CommandKind.delete_schedule
payload_kind (Payload.upsert_operator _ _ _) = CommandKind.upsert_operator
payload_kind (Payload.delete_operator _ _) = CommandKind.delete_operator
payload_kind (Payload.set_job_write_allowed _ _ _) = CommandKind.set_job_write_allowed

-- The discriminant of the payload; `none` is the kind "unknown" of a command that carries none.
unfoldable pub command_kind : Command → Option CommandKind
unfolding payload_kind
command_kind c = elim c.payload [ none ↦ none | some p ↦ some (payload_kind p) ]

-- `commandKind`: the name of the discriminant.
unfoldable pub kind_text : Option CommandKind → String
kind_text none = "unknown"
kind_text (some CommandKind.toggle_job) = "toggleJob"
kind_text (some CommandKind.run_job) = "runJob"
kind_text (some CommandKind.stop_job) = "stopJob"
kind_text (some CommandKind.upsert_job) = "upsertJob"
kind_text (some CommandKind.delete_job) = "deleteJob"
kind_text (some CommandKind.upsert_schedule) = "upsertSchedule"
kind_text (some CommandKind.delete_schedule) = "deleteSchedule"
kind_text (some CommandKind.upsert_operator) = "upsertOperator"
kind_text (some CommandKind.delete_operator) = "deleteOperator"
kind_text (some CommandKind.set_job_write_allowed) = "setJobWriteAllowed"

-- `writeUInt32BE`: four bytes, the most significant first.
unfoldable pub uint32_be : ℕ → List ℕ
uint32_be n = (n / 16777216 % 256) ∷ (n / 65536 % 256) ∷ (n / 256 % 256) ∷ (n % 256) ∷ []

unfoldable pub length_prefixed : List (List ℕ) → List ℕ
unfolding uint32_be
length_prefixed [] = []
length_prefixed (part ∷ parts) = uint32_be (length part) ++ (part ++ length_prefixed parts)

-- What the platform and the protobuf code supply.
pub record Crypto : Type 0 where
  -- `Buffer.from(text, 'utf8')`.
  pub utf8 : String → List ℕ
  -- `createHash('sha256')` on the bytes, as hex.
  pub sha256 : List ℕ → String
  -- `canonicalJsonStringify` of the decoded payload.
  pub canonical_json : Payload → String
  -- `createVerify(...).verify(publicKey, signature)` on the bytes; `none` where it throws.
  pub verify : String → List ℕ → List ℕ → Option Bool

-- `${seconds}.${nanos}`, or `0.0` for a command with no time.
unfoldable pub issued_text : Option Timestamp → List ℕ
unfolding decimal
issued_text none = b'0' ∷ b'.' ∷ b'0' ∷ []
issued_text (some t) = decimal t.seconds ++ (b'.' ∷ decimal t.nanos)

module _ (crypto : Crypto) where
  open crypto use {utf8, sha256, canonical_json, verify}

  -- `commandPayloadHash`, over `${$case}:${canonical JSON}`.
  unfoldable pub payload_hash : Option Payload → String
  unfolding kind_text payload_kind
  payload_hash none = sha256 []
  payload_hash (some p) =
      sha256 (utf8 (kind_text (some (payload_kind p))) ++ (b':' ∷ utf8 (canonical_json p)))

  abbrev pub signed_parts : Command → List (List ℕ)
  signed_parts c =
      utf8 c.id
      ∷ utf8 (kind_text (command_kind c))
      ∷ utf8 (payload_hash c.payload)
      ∷ issued_text c.issued_at
      ∷ utf8 c.instance_name
      ∷ []

  unfoldable pub command_signing_bytes : Command → List ℕ
  unfolding length_prefixed
  command_signing_bytes c = length_prefixed (signed_parts c)

  unfoldable pub verify_command_signature : Command → String → Bool
  unfolding command_signing_bytes
  verify_command_signature c public_key_pem = elim c.signature [
    | [] ↦ false
    | _ ∷ _ ↦ elim (verify public_key_pem (command_signing_bytes c) c.signature) [
      | none ↦ false
      | some ok ↦ ok
    ]
  ]

-- 15 minutes and one minute.
abbrev pub max_command_age_ms : ℕ
max_command_age_ms = 900000

abbrev pub max_command_clock_skew_ms : ℕ
max_command_clock_skew_ms = 60000

-- `age <= MAX && age >= -SKEW` for `age = now - issued`, without a difference that stops at 0.
unfoldable pub is_command_fresh : ℕ → ℕ → Bool
is_command_fresh issued_at_ms now_ms =
    leb now_ms (issued_at_ms + max_command_age_ms)
    && leb issued_at_ms (now_ms + max_command_clock_skew_ms)
