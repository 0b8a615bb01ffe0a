-- ===== src/Schedule/Recurrence.antt =====
-- packages/protocol/src/schedule.ts: the recurrence of an encoded schedule, through its humane form.
use remote_sql_agent.Prelude.{
  ℕ, ◌%◌, ◌<◌, ◌≡◌, refl, sym, ap, ◌∙◌, ◌⊎◌, inl, inr, if◌then◌else◌, Bool-cases, [], ◌∷◌, map,
  filter, All, All-Elem, Elem, arith,
}
use remote_sql_agent.Job.{ScheduleDefinition}
use remote_sql_agent.Schedule.Humane.{
  Entries, relative_interval_entries, weekday_entries, relative_weekday_entries, has_bit, name_of,
  number_of, recurrence_of, freq, with_flag, flags_of, frequency_of,
}

-- Which fields a kind of recurrence uses, with the others at zero.
abbrev pub RecurrenceFits : ScheduleDefinition → Type 0
RecurrenceFits s =
    (((s.freq_type ≡ 1) ⊎ ((s.freq_type ≡ 64) ⊎ (s.freq_type ≡ 128)))
      × (s.freq_interval ≡ 0)
      × (s.freq_relative_interval ≡ 0)
      × (s.freq_recurrence_factor ≡ 0))
    ⊎ ((s.freq_type ≡ 4) × (s.freq_relative_interval ≡ 0) × (s.freq_recurrence_factor ≡ 0))
    ⊎ ((s.freq_type ≡ 8) × (s.freq_interval < 128) × (s.freq_relative_interval ≡ 0))
    ⊎ ((s.freq_type ≡ 16) × (s.freq_relative_interval ≡ 0))
    ⊎ ((s.freq_type ≡ 32)
        × Elem s.freq_interval (1 ∷ 2 ∷ 3 ∷ 4 ∷ 5 ∷ 6 ∷ 7 ∷ 8 ∷ 9 ∷ 10 ∷ [])
        × Elem s.freq_relative_interval (1 ∷ 2 ∷ 4 ∷ 8 ∷ 16 ∷ []))

-- The flags, added up over the entries of the table whose bit is set.
abbrev flagged : ℕ → Entries → ℕ → ℕ
flagged n [] acc = acc
flagged n (e ∷ es) acc = flagged n es (if has_bit n e.1 then with_flag acc e.1 else acc)

flags_of-names :
    (n : ℕ) (es : Entries) (acc : ℕ)
    → All (λ e. number_of weekday_entries e.0 ≡ e.1) es
    → flags_of (map (λ e. e.0) (filter (λ e. has_bit n e.1) es)) acc ≡ flagged n es acc
unfolding flags_of
flags_of-names n [] acc h = refl
flags_of-names n (e ∷ es) acc (k, h) = elim (Bool-cases (has_bit n e.1)) [
  | inl set ↦ rw (set) (
      ap (λ v. flags_of (map (λ e. e.0) (filter (λ e. has_bit n e.1) es)) (with_flag acc v)) k
      ∙ flags_of-names n es (with_flag acc e.1) h)
  | inr clear ↦ rw (clear) (flags_of-names n es acc h)
]

-- The bits below a power of two, with the next one.
abbrev next : ℕ → ℕ → ℕ → ℕ
next n acc flag = if has_bit n flag then with_flag acc flag else acc

next-1 : (n : ℕ) → next n 0 1 ≡ n % 2
next-1 n = ground arith

next-2 : (n : ℕ) → next n (n % 2) 2 ≡ n % 4
next-2 n = ground arith

next-4 : (n : ℕ) → next n (n % 4) 4 ≡ n % 8
next-4 n = ground arith

next-8 : (n : ℕ) → next n (n % 8) 8 ≡ n % 16
next-8 n = ground arith

next-16 : (n : ℕ) → next n (n % 16) 16 ≡ n % 32
next-16 n = ground arith

next-32 : (n : ℕ) → next n (n % 32) 32 ≡ n % 64
next-32 n = ground arith

next-64 : (n : ℕ) → next n (n % 64) 64 ≡ n % 128
next-64 n = ground arith

-- The flags of a number below 128 add up to it.
flagged-weekdays : (n : ℕ) → n < 128 → flagged n weekday_entries 0 ≡ n
flagged-weekdays n lt =
    ap
      (flagged n (
        ("Monday", 2)
        ∷ ("Tuesday", 4)
        ∷ ("Wednesday", 8)
        ∷ ("Thursday", 16)
        ∷ ("Friday", 32)
        ∷ ("Saturday", 64)
        ∷ []))
      (next-1 n)
    ∙ ap
        (flagged n (
          ("Tuesday", 4)
          ∷ ("Wednesday", 8)
          ∷ ("Thursday", 16)
          ∷ ("Friday", 32)
          ∷ ("Saturday", 64)
          ∷ []))
        (next-2 n)
    ∙ ap (flagged n (("Wednesday", 8) ∷ ("Thursday", 16) ∷ ("Friday", 32) ∷ ("Saturday", 64) ∷ []))
        (next-4 n)
    ∙ ap (flagged n (("Thursday", 16) ∷ ("Friday", 32) ∷ ("Saturday", 64) ∷ [])) (next-8 n)
    ∙ ap (flagged n (("Friday", 32) ∷ ("Saturday", 64) ∷ [])) (next-16 n)
    ∙ ap (flagged n (("Saturday", 64) ∷ [])) (next-32 n)
    ∙ ap (flagged n ([])) (next-64 n)
    ∙ omega (arith, lt)

weekday-numbers : All (λ e. number_of weekday_entries e.0 ≡ e.1) weekday_entries
weekday-numbers = (refl, (refl, (refl, (refl, (refl, (refl, (refl, tt)))))))

-- The name of a value in a table is a key of that value.
relative-interval_name :
    (v : ℕ)
    → Elem v (1 ∷ 2 ∷ 4 ∷ 8 ∷ 16 ∷ [])
    → number_of relative_interval_entries (name_of relative_interval_entries v "First") ≡ v
relative-interval_name v h =
    All-Elem
      (λ x. number_of relative_interval_entries (name_of relative_interval_entries x "First") ≡ x)
      (1 ∷ 2 ∷ 4 ∷ 8 ∷ 16 ∷ []) v (refl, (refl, (refl, (refl, (refl, tt))))) h

relative-weekday_name :
    (v : ℕ)
    → Elem v (1 ∷ 2 ∷ 3 ∷ 4 ∷ 5 ∷ 6 ∷ 7 ∷ 8 ∷ 9 ∷ 10 ∷ [])
    → number_of relative_weekday_entries (name_of relative_weekday_entries v "Day") ≡ v
relative-weekday_name v h =
    All-Elem
      (λ x. number_of relative_weekday_entries (name_of relative_weekday_entries x "Day") ≡ x)
      (1 ∷ 2 ∷ 3 ∷ 4 ∷ 5 ∷ 6 ∷ 7 ∷ 8 ∷ 9 ∷ 10 ∷ []) v
      (refl, (refl, (refl, (refl, (refl, (refl, (refl, (refl, (refl, (refl, tt)))))))))) h

-- `frequency_of` of a frequency's recurrence, from its fields.
freq-eq :
    (s : ScheduleDefinition) (t i r f : ℕ)
    → i ≡ s.freq_interval
    → r ≡ s.freq_relative_interval
    → f ≡ s.freq_recurrence_factor
    → freq t i r f ≡ freq t s.freq_interval s.freq_relative_interval s.freq_recurrence_factor
freq-eq s t i r f ei er ef = rw (ei, er, ef) refl

pub frequency_of-recurrence_of :
    (s : ScheduleDefinition)
    → RecurrenceFits s
    → frequency_of (recurrence_of s)
      ≡ freq s.freq_type s.freq_interval s.freq_relative_interval s.freq_recurrence_factor
unfolding frequency_of recurrence_of
frequency_of-recurrence_of s (inl (inl e, i, r, f)) =
    rw (e, recurrence_of) (freq-eq s 1 0 0 0 (sym i) (sym r) (sym f))
frequency_of-recurrence_of s (inl (inr (inl e), i, r, f)) =
    rw (e, recurrence_of) (freq-eq s 64 0 0 0 (sym i) (sym r) (sym f))
frequency_of-recurrence_of s (inl (inr (inr e), i, r, f)) =
    rw (e, recurrence_of) (freq-eq s 128 0 0 0 (sym i) (sym r) (sym f))
frequency_of-recurrence_of s (inr (inl (e, r, f))) =
    rw (e, recurrence_of) (freq-eq s 4 s.freq_interval 0 0 refl (sym r) (sym f))
frequency_of-recurrence_of s (inr (inr (inl (e, lt, r)))) =
    let flags =
      flags_of-names s.freq_interval weekday_entries 0 weekday-numbers
      ∙ flagged-weekdays s.freq_interval lt in
    rw (e, recurrence_of) (freq-eq s 8 _ 0 s.freq_recurrence_factor flags (sym r) refl)
frequency_of-recurrence_of s (inr (inr (inr (inl (e, r))))) =
    rw (e, recurrence_of)
      (freq-eq s 16 s.freq_interval 0 s.freq_recurrence_factor refl (sym r) refl)
frequency_of-recurrence_of s (inr (inr (inr (inr (e, i, r))))) =
    rw (e, recurrence_of)
      (freq-eq s 32 _ _ s.freq_recurrence_factor (relative-weekday_name s.freq_interval i)
        (relative-interval_name s.freq_relative_interval r) refl)
