-- ===== src/Signing/Examples.antt =====
-- Instances for the signed bytes, with code points for UTF-8 and short texts for the digests.
use remote_sql_agent.Prelude.{
  ◌≡◌, refl, ◌<◌, true, some, [], ◌∷◌, All, length, codes, codes-injective, arith,
}
use remote_sql_agent.Signing.{
  Command, Payload, Crypto, command_kind, kind_text, payload_hash, issued_text, signed_parts,
  command_signing_bytes,
}
use remote_sql_agent.Signing.Splicing.{signed_time, command_signing_bytes-determine}

abbrev crypto : Crypto
crypto = record {
  utf8 = codes;
  sha256 = λ bytes. "9f86";
  canonical_json = λ p. "{}";
  verify = λ _ _ _. some true;
}

abbrev command : Command
command = record {
  id = "c1";
  issued_at = some (record { seconds = 12; nanos = 5 });
  instance_name = "SQL01";
  signature = 1 ∷ [];
  payload = some (Payload.stop_job "j1");
}

abbrev forwarded : Command
forwarded = record command { signature = 2 ∷ [] }

parts_short : All (λ p. length p < 4294967296) (signed_parts crypto command)
unfolding issued_text command_kind kind_text payload_hash
parts_short = (omega arith, (omega arith, (omega arith, (omega arith, (omega arith, tt)))))

command_signing_bytes-determine_example :
    (command.id ≡ forwarded.id)
    × (command_kind command ≡ command_kind forwarded)
    × (payload_hash crypto command.payload ≡ payload_hash crypto forwarded.payload)
    × (signed_time command.issued_at ≡ signed_time forwarded.issued_at)
    × (command.instance_name ≡ forwarded.instance_name)
unfolding command_signing_bytes command_kind
command_signing_bytes-determine_example =
    command_signing_bytes-determine crypto command forwarded codes-injective parts_short parts_short
      refl
