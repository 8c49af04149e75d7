-- ===== src/Config/Tests.antt =====
-- The settings of an environment that sets one variable, and of one that has a bad number.
use fraud_ml_platform.Shared.{
  ℕ, String, ◌≡◌, refl, Option, none, some, str_eq, if◌then◌else◌, value_error, Result, ok, raise,
}
use fraud_ml_platform.Config.Settings.{default_dsn, shadow_config}

abbrev digit : String → Result ℕ
digit s = if str_eq s "5" then ok 5 else if str_eq s "bad" then raise value_error else ok 1

abbrev one_set : String → Option String
one_set key = if str_eq key "SHADOW_INTERVAL_MINUTES" then some "5" else none

abbrev bad_set : String → Option String
bad_set key = if str_eq key "SHADOW_WINDOW_HOURS" then some "bad" else none

one_variable :
    shadow_config digit one_set
    ≡ ok (record {
      postgres_dsn = default_dsn;
      shadow_interval_minutes = 5;
      shadow_window_hours = 1;
    })
unfolding shadow_config
one_variable = refl

bad_number : shadow_config digit bad_set ≡ raise value_error
unfolding shadow_config
bad_number = refl
