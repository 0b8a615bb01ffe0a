-- ===== src/Signing/Splicing.antt =====
-- packages/protocol/src/signing.ts: from the signed bytes back to the fields.
use remote_sql_agent.Prelude.{
  ℕ, ◌<◌, ◌≡◌, refl, sym, ap, ◌∙◌, String, str_eq, if◌then◌else◌, Option, none, some, List, [], ◌∷◌,
  ◌++◌, arith, length, All, decimal, IsDigit, value, value-decimal,
}
use remote_sql_agent.Capabilities.{CommandKind}
use remote_sql_agent.Signing.{
  Command, Timestamp, Crypto, uint32_be, length_prefixed, command_signing_bytes, signed_parts,
  command_kind, kind_text, payload_hash, issued_text,
}

uint32_be-injective :
    (m n : ℕ) (s t : List ℕ)
    → m < 4294967296
    → n < 4294967296
    → uint32_be m ++ s ≡ uint32_be n ++ t
    → (m ≡ n) × (s ≡ t)
unfolding uint32_be
uint32_be-injective m n s t hm hn e = ground arith

append-injective :
    (xs ys s t : List ℕ) → length xs ≡ length ys → xs ++ s ≡ ys ++ t → (xs ≡ ys) × (s ≡ t)
append-injective [] [] s t l e = (refl, e)
append-injective [] (y ∷ ys) s t l e = absurd (omega arith)
append-injective (x ∷ xs) [] s t l e = absurd (omega arith)
append-injective (x ∷ xs) (y ∷ ys) s t l e =
    ground (arith, append-injective xs ys s t (omega arith))

-- Parts shorter than 2³² bytes are determined by their encoding, so bytes cannot be moved from one field to
-- the next.
pub length_prefixed-injective :
    (ps qs : List (List ℕ))
    → All (λ p. length p < 4294967296) ps
    → All (λ p. length p < 4294967296) qs
    → length_prefixed ps ≡ length_prefixed qs
    → ps ≡ qs
unfolding length_prefixed
length_prefixed-injective [] [] hp hq e = refl
length_prefixed-injective [] (q ∷ qs) hp hq e = ground arith
length_prefixed-injective (p ∷ ps) [] hp hq e = ground arith
length_prefixed-injective (p ∷ ps) (q ∷ qs) hp hq e =
    let (l, r) =
      uint32_be-injective (length p) (length q) (p ++ length_prefixed ps) (q ++ length_prefixed qs)
        hp.0 hq.0 e in
    let (same, rest) = append-injective p q (length_prefixed ps) (length_prefixed qs) l r in
    let tail = length_prefixed-injective ps qs hp.1 hq.1 rest in cc

-- The kind whose name a text is.
abbrev kind_of_text : String → Option CommandKind
kind_of_text s =
    if str_eq s "toggleJob"
    then some CommandKind.toggle_job
    else (if str_eq s "runJob"
        then some CommandKind.run_job
        else (if str_eq s "stopJob"
            then some CommandKind.stop_job
            else (if str_eq s "upsertJob"
                then some CommandKind.upsert_job
                else (if str_eq s "deleteJob"
                    then some CommandKind.delete_job
                    else (if str_eq s "upsertSchedule"
                        then some CommandKind.upsert_schedule
                        else (if str_eq s "deleteSchedule"
                            then some CommandKind.delete_schedule
                            else (if str_eq s "upsertOperator"
                                then some CommandKind.upsert_operator
                                else (if str_eq s "deleteOperator"
                                    then some CommandKind.delete_operator
                                    else (if str_eq s "setJobWriteAllowed"
                                        then some CommandKind.set_job_write_allowed
                                        else none)))))))))

kind_of_text-kind_text : (k : Option CommandKind) → kind_of_text (kind_text k) ≡ k
unfolding kind_text
kind_of_text-kind_text none = refl
kind_of_text-kind_text (some CommandKind.toggle_job) = refl
kind_of_text-kind_text (some CommandKind.run_job) = refl
kind_of_text-kind_text (some CommandKind.stop_job) = refl
kind_of_text-kind_text (some CommandKind.upsert_job) = refl
kind_of_text-kind_text (some CommandKind.delete_job) = refl
kind_of_text-kind_text (some CommandKind.upsert_schedule) = refl
kind_of_text-kind_text (some CommandKind.delete_schedule) = refl
kind_of_text-kind_text (some CommandKind.upsert_operator) = refl
kind_of_text-kind_text (some CommandKind.delete_operator) = refl
kind_of_text-kind_text (some CommandKind.set_job_write_allowed) = refl

kind_text-injective : (j k : Option CommandKind) → kind_text j ≡ kind_text k → j ≡ k
kind_text-injective j k e =
    sym (kind_of_text-kind_text j) ∙ ap kind_of_text e ∙ kind_of_text-kind_text k

-- The time that is signed: a command with no time is signed as one of time 0.
abbrev pub signed_time : Option Timestamp → Timestamp
signed_time none = record { seconds = 0; nanos = 0 }
signed_time (some t) = t

issued_text_lem :
    (o : Option Timestamp)
    → issued_text o ≡ decimal (signed_time o).seconds ++ (b'.' ∷ decimal (signed_time o).nanos)
unfolding issued_text decimal
issued_text_lem none = refl
issued_text_lem (some t) = refl

-- Digits up to a point are determined by the text.
point-injective :
    (xs us ys vs : List ℕ)
    → All IsDigit xs
    → All IsDigit us
    → xs ++ (b'.' ∷ ys) ≡ us ++ (b'.' ∷ vs)
    → (xs ≡ us) × (ys ≡ vs)
point-injective [] [] ys vs h k e = ground (arith, e)
point-injective [] (u ∷ us) ys vs h k e = absurd (ground (arith, e, k.0))
point-injective (x ∷ xs) [] ys vs h k e = absurd (ground (arith, e, h.0))
point-injective (x ∷ xs) (u ∷ us) ys vs h k e =
    ground (arith, e, point-injective xs us ys vs h.1 k.1 (ground (arith, e)))

decimal-injective : (m n : ℕ) → decimal m ≡ decimal n → m ≡ n
decimal-injective m n e = sym (value-decimal m).0 ∙ ap value e ∙ (value-decimal n).0

issued_text-injective :
    (o p : Option Timestamp) → issued_text o ≡ issued_text p → signed_time o ≡ signed_time p
issued_text-injective o p e =
    let s = signed_time o in
    let t = signed_time p in
    let (a, b) =
      point-injective (decimal s.seconds) (decimal t.seconds) (decimal s.nanos) (decimal t.nanos)
        (value-decimal s.seconds).1 (value-decimal t.seconds).1
        (sym (issued_text_lem o) ∙ e ∙ issued_text_lem p) in
    let seconds = decimal-injective s.seconds t.seconds a in
    let nanos = decimal-injective s.nanos t.nanos b in
    λ i. record { seconds = seconds i; nanos = nanos i }

-- Two commands with the same signed bytes agree in id, kind, payload hash, instance and signed time, where UTF-8
-- tells texts apart and no field takes 2³² bytes. The signed time of a command without a time is 0 seconds and 0
-- nanoseconds, so a missing time is not told apart from that one.
pub command_signing_bytes-determine :
    (crypto : Crypto) (c d : Command)
    → ((s t : String) → crypto.utf8 s ≡ crypto.utf8 t → s ≡ t)
    → All (λ p. length p < 4294967296) (signed_parts crypto c)
    → All (λ p. length p < 4294967296) (signed_parts crypto d)
    → command_signing_bytes crypto c ≡ command_signing_bytes crypto d
    → (c.id ≡ d.id)
      × (command_kind c ≡ command_kind d)
      × (payload_hash crypto c.payload ≡ payload_hash crypto d.payload)
      × (signed_time c.issued_at ≡ signed_time d.issued_at)
      × (c.instance_name ≡ d.instance_name)
unfolding command_signing_bytes
command_signing_bytes-determine crypto c d faithful hc hd e =
    let same = length_prefixed-injective (signed_parts crypto c) (signed_parts crypto d) hc hd e in
    (
      faithful _ _ (cc same),
      kind_text-injective (command_kind c) (command_kind d) (faithful _ _ (cc same)),
      faithful _ _ (cc same),
      issued_text-injective c.issued_at d.issued_at (cc same),
      faithful _ _ (cc same),
    )
