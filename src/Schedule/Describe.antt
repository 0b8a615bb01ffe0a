-- ===== src/Schedule/Describe.antt =====
-- packages/protocol/src/schedule.ts: `describeSchedule`, the one-line summary of a schedule, as a list of code points.
use remote_sql_agent.Prelude.{
  ℕ, ◌==◌, if◌then◌else◌, String, codes, decimal, lower, List, [], ◌∷◌, ◌++◌, map,
}
use remote_sql_agent.Job.{ScheduleDefinition}
use remote_sql_agent.Schedule.Humane.{
  HumaneRecurrence, once, on_agent_start, on_idle, daily, weekly, monthly, monthly_relative,
  SubdayUnit, seconds, minutes, hours, HumaneDailyFrequency, once_at, every, HumaneSchedule,
  to_humane_schedule,
}

-- "every week" or "every 3 weeks", for a unit in the singular.
abbrev pub every_text : ℕ → String → List ℕ
every_text n unit =
    if n == 1
    then codes "every " ++ codes unit
    else codes "every " ++ (decimal n ++ (b' ' ∷ (codes unit ++ codes "s")))

-- `join(', ')`.
abbrev pub join_names : List String → List ℕ
join_names [] = []
join_names (n ∷ []) = codes n
join_names (n ∷ m ∷ names) = codes n ++ (codes ", " ++ join_names (m ∷ names))

abbrev pub days_text : List String → List ℕ
days_text [] = codes "no days"
days_text (d ∷ ds) = join_names (d ∷ ds)

-- The `switch`, where a case that returns at once has no text about the time of the day.
unfoldable pub base_text : HumaneSchedule → HumaneRecurrence → List ℕ
base_text h once = codes "Occurs once on " ++ h.start_date
base_text h on_agent_start = codes "Occurs when SQL Server Agent starts"
base_text h on_idle = codes "Occurs when the CPU becomes idle"
base_text h (daily n) =
    if n == 1
    then codes "Occurs every day"
    else codes "Occurs every " ++ (decimal n ++ codes " days")
base_text h (weekly n days) =
    codes "Occurs " ++ (every_text n "week" ++ (codes " on " ++ days_text days))
base_text h (monthly day n) =
    codes "Occurs " ++ (every_text n "month" ++ (codes " on day " ++ decimal day))
base_text h (monthly_relative occurrence weekday n) =
    codes "Occurs "
    ++ (every_text n "month"
        ++ (codes " on the " ++ (map lower (codes occurrence) ++ (b' ' ∷ codes weekday))))

abbrev pub unit_text : SubdayUnit → String
unit_text seconds = "seconds"
unit_text minutes = "minutes"
unit_text hours = "hours"

unfoldable pub when_text : HumaneDailyFrequency → List ℕ
when_text (once_at at) = codes " at " ++ at
when_text (every n unit from to) =
    codes " every "
    ++ (decimal n
        ++ (b' '
            ∷ (codes (unit_text unit) ++ (codes " between " ++ (from ++ (codes " and " ++ to))))))

abbrev with_time : HumaneRecurrence → List ℕ → List ℕ → List ℕ
with_time on_agent_start base when = base
with_time on_idle base when = base
with_time _ base when = base ++ when

unfoldable pub describe_schedule : ScheduleDefinition → List ℕ
unfolding base_text when_text
describe_schedule s =
    let h = to_humane_schedule s in
    with_time h.recurrence (base_text h h.recurrence) (when_text h.daily_frequency)
