-- ===== src/Common/Config/Reference.antt =====
-- Settings that are complete, for the tests.
use warden_demo_workload.Prelude.{◌≡◌, refl, true, false, none, some, ◌==◌, if◌then◌else◌}
use warden_demo_workload.Prelude.Int.{pos}
use warden_demo_workload.Python.Value.{Conversions, ok}
use warden_demo_workload.Common.Config.{Env, Config, load_config}

-- Every text is read as the same number.
abbrev pub any_number : Conversions
any_number = record {
  parse_int = λ s. some (pos 1);
  parse_float = λ s. some (pos 500000);
  format = λ v. "";
  equal = λ v w. false;
}

abbrev pub settings : Env
settings name =
    if name == "TEMPORAL_NAMESPACE"
    then some "demo.a1b2c"
    else if name == "TEMPORAL_API_KEY"
    then some "secret"
    else if name == "TEMPORAL_ADDRESS"
    then some "demo.a1b2c.tmprl.cloud:7233"
    else none

abbrev pub loaded : Config
loaded = record {
  address = "demo.a1b2c.tmprl.cloud:7233";
  namespace = "demo.a1b2c";
  api_key = "secret";
  dashboard_host = "127.0.0.1";
  dashboard_port = pos 1;
  order_start_rate_per_sec = pos 500000;
  order_start_jitter = pos 500000;
  courier_fleet_size = pos 1;
  control_cache_refresh_sec = pos 500000;
  order_stage_tracking = true;
}

pub settings_load : load_config any_number settings ≡ ok loaded
unfolding load_config
settings_load = refl
