-- ===== src/Metrics.antt =====
-- internal/metrics/metrics.go: the domain counters, with one field for each label value.
-- A Prometheus counter is a float64 that is exact up to 2^53; here it is a number.
use my_temp.Common.{ℕ}

pub record Metrics : Type 0 where
  pub workflows_started : ℕ
  pub workflows_completed : ℕ
  pub workflows_failed : ℕ
  pub activities_scheduled : ℕ
  pub activities_completed : ℕ
  pub activities_failed : ℕ
  pub activity_retries : ℕ
  pub timers_started : ℕ
  pub timers_fired : ℕ
  pub signals_delivered : ℕ
  pub leases_reclaimed : ℕ
  pub workflow_hits : ℕ
  pub workflow_misses : ℕ
  pub activity_hits : ℕ
  pub activity_misses : ℕ

-- `New`: every series starts at zero.
abbrev pub new_metrics : Metrics
new_metrics = record {
  workflows_started = 0;
  workflows_completed = 0;
  workflows_failed = 0;
  activities_scheduled = 0;
  activities_completed = 0;
  activities_failed = 0;
  activity_retries = 0;
  timers_started = 0;
  timers_fired = 0;
  signals_delivered = 0;
  leases_reclaimed = 0;
  workflow_hits = 0;
  workflow_misses = 0;
  activity_hits = 0;
  activity_misses = 0;
}
