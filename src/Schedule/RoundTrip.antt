-- ===== src/Schedule/RoundTrip.antt =====
-- packages/protocol/src/schedule.ts: an encoded schedule through its humane form and back.
use remote_sql_agent.Prelude.{
  ℕ, ◌==◌, ◌<◌, ◌≡◌, refl, sym, ◌⊎◌, inl, inr, if◌then◌else◌, Bool-cases, none, some, List, [], ◌∷◌,
  Elem, ==_iff,
}
use remote_sql_agent.Job.{ScheduleDefinition}
use remote_sql_agent.Schedule.Times.{
  IsNumber, decode_date, encode_time-decode_time, encode_date-decode_date,
}
use remote_sql_agent.Schedule.Humane.{
  HumaneDailyFrequency, recurrence_of, daily_frequency_of, to_humane_schedule, Frequency, freq,
  frequency_of, subday_type_of, subday_interval_of, start_time_of, end_time_of, end_date_of,
  from_humane_schedule,
}
use remote_sql_agent.Schedule.Recurrence.{RecurrenceFits, frequency_of-recurrence_of}

-- The clock fields: one time a day has neither an interval nor an end.
abbrev pub ClockFits : ScheduleDefinition → Type 0
ClockFits s =
    ((s.freq_subday_type ≡ 1) × (s.freq_subday_interval ≡ 0) × (s.active_end_time ≡ 235959))
    ⊎ Elem s.freq_subday_type (2 ∷ 4 ∷ 8 ∷ [])

-- The numbers have at most as many digits as their texts.
abbrev pub HasDigits : ScheduleDefinition → Type 0
HasDigits s =
    (s.active_start_time < 1000000)
    × (s.active_end_time < 1000000)
    × (s.active_start_date < 100000000)
    × (s.active_end_date < 100000000)

module _ (to_number : List ℕ → ℕ) (number : IsNumber to_number) where
  -- The subday fields of a frequency are those that it was read from.
  abbrev ClockBack : ScheduleDefinition → HumaneDailyFrequency → Type 0
  ClockBack s f =
      (subday_type_of f ≡ s.freq_subday_type)
      × (subday_interval_of f ≡ s.freq_subday_interval)
      × (start_time_of to_number f ≡ s.active_start_time)
      × (end_time_of to_number f ≡ s.active_end_time)

  clock-back :
      (s : ScheduleDefinition) → ClockFits s → HasDigits s → ClockBack s (daily_frequency_of s)
  unfolding daily_frequency_of
  clock-back s (inl (type, interval, end)) (st, et, _, _) =
      rw (type, daily_frequency_of)
        (
          refl,
          sym interval,
          encode_time-decode_time to_number number s.active_start_time st,
          sym end,
        )
  clock-back s (inr m) (st, et, _, _) =
      let starts = encode_time-decode_time to_number number s.active_start_time st in
      let ends = encode_time-decode_time to_number number s.active_end_time et in
      elim m [
        | inl e ↦ rw (e, daily_frequency_of) (refl, refl, starts, ends)
        | inr (inl e) ↦ rw (e, daily_frequency_of) (refl, refl, starts, ends)
        | inr (inr (inl e)) ↦ rw (e, daily_frequency_of) (refl, refl, starts, ends)
        | inr (inr (inr e)) ↦ absurd e
      ]

  end-back :
      (d : ℕ)
      → d < 100000000
      → end_date_of to_number (if d == 99991231 then none else some (decode_date d)) ≡ d
  end-back d lt = elim (Bool-cases (d == 99991231)) [
    | inl e ↦ rw (e) (sym ((==_iff d 99991231).0 e))
    | inr e ↦ rw (e) (encode_date-decode_date to_number number d lt)
  ]

  abbrev rebuilt :
      ScheduleDefinition → Frequency → HumaneDailyFrequency → ℕ → ℕ → ScheduleDefinition
  rebuilt s f h start end = record {
    name = s.name;
    enabled = s.enabled;
    freq_type = f.freq_type;
    freq_interval = f.freq_interval;
    freq_subday_type = subday_type_of h;
    freq_subday_interval = subday_interval_of h;
    freq_relative_interval = f.freq_relative_interval;
    freq_recurrence_factor = f.freq_recurrence_factor;
    active_start_date = start;
    active_end_date = end;
    active_start_time = start_time_of to_number h;
    active_end_time = end_time_of to_number h;
  }

  schedule-eq :
      (s : ScheduleDefinition) (f : Frequency) (h : HumaneDailyFrequency) (start end : ℕ)
      → f ≡ freq s.freq_type s.freq_interval s.freq_relative_interval s.freq_recurrence_factor
      → ClockBack s h
      → start ≡ s.active_start_date
      → end ≡ s.active_end_date
      → rebuilt s f h start end ≡ s
  schedule-eq s f h start end ef (t, i, st, et) es ee = rw (ef, t, i, st, et, es, ee) refl

  -- A schedule that is opened in its humane form and saved unchanged is stored as it was, where it uses the fields of its
  -- kind of recurrence and of its clock only, its times have at most six digits and its dates eight, and reading a text of
  -- digits as a number gives the number that they stand for.
  pub from_humane_schedule-to_humane_schedule :
      (s : ScheduleDefinition)
      → RecurrenceFits s
      → ClockFits s
      → HasDigits s
      → from_humane_schedule to_number s.name s.enabled (to_humane_schedule s) ≡ s
  unfolding from_humane_schedule to_humane_schedule
  from_humane_schedule-to_humane_schedule s r c d =
      let (_, _, sd, ed) = d in
      schedule-eq s (frequency_of (recurrence_of s)) (daily_frequency_of s) _ _
        (frequency_of-recurrence_of s r) (clock-back s c d)
        (encode_date-decode_date to_number number s.active_start_date sd)
        (end-back s.active_end_date ed)
