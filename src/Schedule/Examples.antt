-- ===== src/Schedule/Examples.antt =====
-- Instances for schedules: Mondays and Fridays, each half hour of the morning, and one that starts with the Agent.
use remote_sql_agent.Prelude.{
  ◌≡◌, refl, inl, inr, true, codes, none, [], ◌∷◌, value, pad_start, decimal, arith,
}
use remote_sql_agent.Job.{ScheduleDefinition}
use remote_sql_agent.Schedule.Describe.{base_text, when_text, describe_schedule}
use remote_sql_agent.Schedule.Times.{decode_time, decode_date}
use remote_sql_agent.Schedule.Humane.{
  weekly, every, minutes, recurrence_of, daily_frequency_of, to_humane_schedule,
  from_humane_schedule,
}
use remote_sql_agent.Schedule.RoundTrip.{from_humane_schedule-to_humane_schedule}

abbrev mornings : ScheduleDefinition
mornings = record {
  name = "mornings";
  enabled = true;
  freq_type = 8;
  freq_interval = 34;
  freq_subday_type = 4;
  freq_subday_interval = 30;
  freq_relative_interval = 0;
  freq_recurrence_factor = 1;
  active_start_date = 20260105;
  active_end_date = 99991231;
  active_start_time = 60000;
  active_end_time = 120000;
}

from_humane_schedule-to_humane_schedule_example :
    from_humane_schedule value "mornings" true (to_humane_schedule mornings) ≡ mornings
from_humane_schedule-to_humane_schedule_example =
    from_humane_schedule-to_humane_schedule value (λ s n d. refl) mornings
      (inr (inr (inl (refl, omega arith, refl)))) (inr (inr (inl refl)))
      (omega arith, omega arith, omega arith, omega arith)

mornings-humane : to_humane_schedule mornings ≡ record {
  recurrence = weekly 1 ("Monday" ∷ "Friday" ∷ []);
  daily_frequency = every 30 minutes (codes "06:00:00") (codes "12:00:00");
  start_date = codes "2026-01-05";
  end_date = none;
}
unfolding to_humane_schedule recurrence_of daily_frequency_of decode_time decode_date pad_start
    decimal
mornings-humane = refl

-- A field that the kind of recurrence does not use is lost: here the fields of a clock without a kind.
abbrev at_start : ScheduleDefinition
at_start = record mornings {
  freq_type = 64;
  freq_interval = 0;
  freq_subday_type = 0;
  freq_subday_interval = 0;
  freq_recurrence_factor = 0;
}

at_start-lost :
    (from_humane_schedule value "mornings" true (to_humane_schedule at_start)).freq_subday_type ≡ 4
unfolding from_humane_schedule to_humane_schedule daily_frequency_of
at_start-lost = refl

mornings-described :
    describe_schedule mornings
    ≡ codes "Occurs every week on Monday, Friday every 30 minutes between 06:00:00 and 12:00:00"
unfolding describe_schedule base_text when_text to_humane_schedule recurrence_of daily_frequency_of
    decode_time decode_date pad_start decimal
mornings-described = refl
