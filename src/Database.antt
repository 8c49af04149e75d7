-- ===== src/Database.antt =====
-- The tables of migrations/*.sql, as lists of rows, and the clock arithmetic of the queries.
-- The order of a list is the order in which a scan returns the rows: SQL promises none, and the
-- theorems hold for every order.
use fraud_ml_platform.Shared.{
  ℕ, ◌-◌, String, Bool, leb, if◌then◌else◌, overflow_error, Result, ok, raise,
}

-- Microseconds since the smallest datetime, 0001-01-01.
abbrev pub Time : Type 0
Time = ℕ

abbrev pub hour : Time
hour = 3600000000

-- `t - timedelta(...)`: a datetime before the smallest one does not exist.
unfoldable pub time_minus : Time → Time → Result Time
time_minus t d = if leb d t then ok (t - d) else raise overflow_error

pub record Prediction (F : Type 0) : Type 0 where
  pub transaction_id : ℕ
  pub model_version : String
  pub fraud_probability : F
  pub flagged : Bool
  pub features_hash : String
  pub total_ms : F
  pub created_at : Time

pub record Label : Type 0 where
  pub transaction_id : ℕ
  pub is_fraud : Bool
  pub label_source : String
  pub available_at : Time
