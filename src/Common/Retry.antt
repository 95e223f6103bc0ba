-- ===== src/Common/Retry.antt =====
-- common/retry.py. Intervals are in seconds; `backoff_coefficient` is in tenths.
use warden_demo_workload.Prelude.{ℕ}

pub record RetryPolicy : Type 0 where
  pub initial_interval : ℕ
  pub backoff_coefficient : ℕ
  pub maximum_interval : ℕ
  pub maximum_attempts : ℕ

abbrev pub storm_retry : RetryPolicy
storm_retry = record {
  initial_interval = 1;
  backoff_coefficient = 10;
  maximum_interval = 1;
  maximum_attempts = 1000;
}

abbrev pub default_retry : RetryPolicy
default_retry = record {
  initial_interval = 1;
  backoff_coefficient = 20;
  maximum_interval = 30;
  maximum_attempts = 5;
}
