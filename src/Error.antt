-- ===== src/Error.antt =====
-- `Error` of src/lib.rs, without the variants that wrap an error of another crate, and that of
-- src/prometheus/mod.rs.
use ohnotel.Base.{Text}

-- `prometheus::Error`
pub data PrometheusError : Type 0 where
  empty_metric_name : PrometheusError
  empty_label_name : Text → PrometheusError
  family_collision : Text → PrometheusError
  label_collision : Text → Text → PrometheusError
  duplicate_series : Text → Text → PrometheusError
  non_finite_boundary : Text → PrometheusError

pub data Error : Type 0 where
  delta_for_gauge : Error
  invalid_histogram_boundaries : Error
  value_to_f64 : Error
  value_to_i64 : Error
  boundary_to_f64 : Error
  time_before_epoch : Error
  time_overflows_u64 : Error
  zero_poll_period : Error
  zero_export_period : Error
  poll_period_exceeds_export_period : Error
  destructive_with_multiple_collectors : Error
  mode_mismatch : Error
  duplicate_destructive : Error
  prometheus : PrometheusError → Error
  custom : Text → Error
