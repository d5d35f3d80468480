-- ===== src/MetricsGate/Raised.antt =====
-- The exceptions of tools/inventory/check_metrics.py that no handler catches.
pub data Crash : Type 0 where
  attribute_error type_error value_error overflow_error os_error : Crash
