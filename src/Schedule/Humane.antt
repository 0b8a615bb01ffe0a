-- ===== src/Schedule/Humane.antt =====
-- packages/protocol/src/schedule.ts: `toHumaneSchedule` and `fromHumaneSchedule`. Names are keys of the tables; a test of one
-- bit and an "or" with one bit are written on numbers.
use remote_sql_agent.Prelude.{
  ℕ, zero, suc, ◌+◌, ◌/◌, ◌%◌, ◌==◌, if◌then◌else◌, Bool, false, String, str_eq, Option, none, some,
  List, [], ◌∷◌, map, filter, find,
}
use remote_sql_agent.Job.{ScheduleDefinition}
use remote_sql_agent.Schedule.Times.{decode_time, decode_date, encode_time, encode_date}

abbrev pub once_type : ℕ
once_type = 1

abbrev pub daily_type : ℕ
daily_type = 4

abbrev pub weekly_type : ℕ
weekly_type = 8

abbrev pub monthly_type : ℕ
monthly_type = 16

abbrev pub monthly_relative_type : ℕ
monthly_relative_type = 32

abbrev pub on_agent_start_type : ℕ
on_agent_start_type = 64

abbrev pub on_idle_type : ℕ
on_idle_type = 128

abbrev pub at_specified_time : ℕ
at_specified_time = 1

abbrev pub seconds_type : ℕ
seconds_type = 2

abbrev pub minutes_type : ℕ
minutes_type = 4

abbrev pub hours_type : ℕ
hours_type = 8

-- An entry of a table of names.
abbrev pub Entries : Type 0
Entries = List (String × ℕ)

abbrev pub relative_interval_entries : Entries
relative_interval_entries =
    ("First", 1) ∷ ("Second", 2) ∷ ("Third", 4) ∷ ("Fourth", 8) ∷ ("Last", 16) ∷ []

abbrev pub weekday_entries : Entries
weekday_entries =
    ("Sunday", 1)
    ∷ ("Monday", 2)
    ∷ ("Tuesday", 4)
    ∷ ("Wednesday", 8)
    ∷ ("Thursday", 16)
    ∷ ("Friday", 32)
    ∷ ("Saturday", 64)
    ∷ []

abbrev pub relative_weekday_entries : Entries
relative_weekday_entries =
    ("Sunday", 1)
    ∷ ("Monday", 2)
    ∷ ("Tuesday", 3)
    ∷ ("Wednesday", 4)
    ∷ ("Thursday", 5)
    ∷ ("Friday", 6)
    ∷ ("Saturday", 7)
    ∷ ("Day", 8)
    ∷ ("Weekday", 9)
    ∷ ("WeekendDay", 10)
    ∷ []

pub data HumaneRecurrence : Type 0 where
  once on_agent_start on_idle : HumaneRecurrence
  daily : ℕ → HumaneRecurrence
  weekly : ℕ → List String → HumaneRecurrence
  monthly : ℕ → ℕ → HumaneRecurrence
  monthly_relative : String → String → ℕ → HumaneRecurrence

pub data SubdayUnit : Type 0 where
  seconds minutes hours : SubdayUnit

pub data HumaneDailyFrequency : Type 0 where
  once_at : List ℕ → HumaneDailyFrequency
  every : ℕ → SubdayUnit → List ℕ → List ℕ → HumaneDailyFrequency

pub record HumaneSchedule : Type 0 where
  pub recurrence : HumaneRecurrence
  pub daily_frequency : HumaneDailyFrequency
  pub start_date : List ℕ
  pub end_date : Option (List ℕ)

-- `(n & bit) !== 0`, of a power of two.
abbrev pub has_bit : ℕ → ℕ → Bool
has_bit n zero = false
has_bit n (suc b) = n / suc b % 2 == 1

-- `find(([, v]) => v === value)?.[0] ?? otherwise`.
abbrev pub name_in : Option (String × ℕ) → String → String
name_in none otherwise = otherwise
name_in (some e) otherwise = e.0

abbrev pub name_of : Entries → ℕ → String → String
name_of entries v otherwise = name_in (find (λ e. e.1 == v) entries) otherwise

-- The value of a key; the types leave no other key.
abbrev pub number_in : Option (String × ℕ) → ℕ
number_in none = 0
number_in (some e) = e.1

abbrev pub number_of : Entries → String → ℕ
number_of entries name = number_in (find (λ e. str_eq e.0 name) entries)

-- The cases of the `switch`, by the value tested.
unfoldable pub recurrence_of : ScheduleDefinition → HumaneRecurrence
recurrence_of s =
    if s.freq_type == once_type
    then once
    else if s.freq_type == on_agent_start_type
    then on_agent_start
    else if s.freq_type == on_idle_type
    then on_idle
    else if s.freq_type == daily_type
    then daily s.freq_interval
    else if s.freq_type == weekly_type
    then weekly s.freq_recurrence_factor
        (map (λ e. e.0) (filter (λ e. has_bit s.freq_interval e.1) weekday_entries))
    else if s.freq_type == monthly_type
    then monthly s.freq_interval s.freq_recurrence_factor
    else if s.freq_type == monthly_relative_type
    then monthly_relative (name_of relative_interval_entries s.freq_relative_interval "First")
        (name_of relative_weekday_entries s.freq_interval "Day") s.freq_recurrence_factor
    else once

unfoldable pub daily_frequency_of : ScheduleDefinition → HumaneDailyFrequency
daily_frequency_of s =
    if s.freq_subday_type == at_specified_time
    then once_at (decode_time s.active_start_time)
    else every s.freq_subday_interval
        (if s.freq_subday_type == seconds_type
          then seconds
          else if s.freq_subday_type == hours_type
          then hours
          else minutes)
        (decode_time s.active_start_time) (decode_time s.active_end_time)

unfoldable pub to_humane_schedule : ScheduleDefinition → HumaneSchedule
unfolding recurrence_of daily_frequency_of
to_humane_schedule s = record {
  recurrence = recurrence_of s;
  daily_frequency = daily_frequency_of s;
  start_date = decode_date s.active_start_date;
  end_date = if s.active_end_date == 99991231 then none else some (decode_date s.active_end_date);
}

-- `freqType`, `freqInterval`, `freqRelativeInterval` and `freqRecurrenceFactor`.
pub record Frequency : Type 0 where
  pub freq_type : ℕ
  pub freq_interval : ℕ
  pub freq_relative_interval : ℕ
  pub freq_recurrence_factor : ℕ

abbrev pub freq : ℕ → ℕ → ℕ → ℕ → Frequency
freq type interval relative factor = record {
  freq_type = type;
  freq_interval = interval;
  freq_relative_interval = relative;
  freq_recurrence_factor = factor;
}

-- `acc | WeekdayFlag[d]`, and the `reduce` with it.
abbrev pub with_flag : ℕ → ℕ → ℕ
with_flag acc flag = if has_bit acc flag then acc else acc + flag

unfoldable pub flags_of : List String → ℕ → ℕ
flags_of [] acc = acc
flags_of (d ∷ ds) acc = flags_of ds (with_flag acc (number_of weekday_entries d))

unfoldable pub frequency_of : HumaneRecurrence → Frequency
unfolding flags_of
frequency_of once = freq once_type 0 0 0
frequency_of on_agent_start = freq on_agent_start_type 0 0 0
frequency_of on_idle = freq on_idle_type 0 0 0
frequency_of (daily n) = freq daily_type n 0 0
frequency_of (weekly n days) = freq weekly_type (flags_of days 0) 0 n
frequency_of (monthly day n) = freq monthly_type day 0 n
frequency_of (monthly_relative occurrence weekday n) =
    freq monthly_relative_type (number_of relative_weekday_entries weekday)
      (number_of relative_interval_entries occurrence) n

abbrev pub subday_type_of : HumaneDailyFrequency → ℕ
subday_type_of (once_at at) = at_specified_time
subday_type_of (every n seconds from to) = seconds_type
subday_type_of (every n hours from to) = hours_type
subday_type_of (every n minutes from to) = minutes_type

abbrev pub subday_interval_of : HumaneDailyFrequency → ℕ
subday_interval_of (once_at at) = 0
subday_interval_of (every n unit from to) = n

module _ (to_number : List ℕ → ℕ) where
  abbrev pub start_time_of : HumaneDailyFrequency → ℕ
  start_time_of (once_at at) = encode_time to_number at
  start_time_of (every n unit from to) = encode_time to_number from

  abbrev pub end_time_of : HumaneDailyFrequency → ℕ
  end_time_of (once_at at) = 235959
  end_time_of (every n unit from to) = encode_time to_number to

  abbrev pub end_date_of : Option (List ℕ) → ℕ
  end_date_of none = 99991231
  end_date_of (some d) = encode_date to_number d

  unfoldable pub from_humane_schedule : String → Bool → HumaneSchedule → ScheduleDefinition
  unfolding frequency_of
  from_humane_schedule name enabled h =
      let f = frequency_of h.recurrence in
      record {
        name = name;
        enabled = enabled;
        freq_type = f.freq_type;
        freq_interval = f.freq_interval;
        freq_subday_type = subday_type_of h.daily_frequency;
        freq_subday_interval = subday_interval_of h.daily_frequency;
        freq_relative_interval = f.freq_relative_interval;
        freq_recurrence_factor = f.freq_recurrence_factor;
        active_start_date = encode_date to_number h.start_date;
        active_end_date = end_date_of h.end_date;
        active_start_time = start_time_of h.daily_frequency;
        active_end_time = end_time_of h.daily_frequency;
      }
