-- ===== src/Webmention/Config.antt =====
-- indieweb2-bastion/services/webmention-rate-limiter/src/config.rs, and `load_config` of main.rs.
-- A Duration is a number of nanoseconds. An `f32` multiplier is mantissa / 2 ^ exponent; a negative
-- one or a NaN has the effect of 0 in its only use, which takes the maximum with 3.
use civic_connect.Prelude.{ℕ, ◌*◌, ◌^◌, String, Bool, true, Option, none, some, List, [], ◌∷◌}
use civic_connect.Prelude.Text.{parse_uint}

pub record F32 : Type 0 where
  pub mantissa : ℕ
  pub exponent : ℕ

pub record RateLimitConfig : Type 0 where
  pub max_rate_rpm : ℕ
  pub max_rate_per_source : ℕ
  pub cooldown_on_burst_ms : ℕ
  pub burst_threshold_multiplier : F32
  pub window_secs : ℕ

pub record ValidationConfig : Type 0 where
  pub require_content_type : List String
  pub require_source_target : Bool
  pub block_self_ping : Bool

pub record MetricsConfig : Type 0 where
  pub enabled : Bool
  pub path : String

pub record Config : Type 0 where
  pub bind_addr : String
  pub rate_limit : RateLimitConfig
  pub validation : ValidationConfig
  pub metrics : MetricsConfig

abbrev pub default_rate_limit : RateLimitConfig
default_rate_limit = record {
  max_rate_rpm = 60;
  max_rate_per_source = 10;
  cooldown_on_burst_ms = 30000;
  burst_threshold_multiplier = record { mantissa = 3; exponent = 0 };
  window_secs = 60;
}

abbrev pub default_validation : ValidationConfig
default_validation = record {
  require_content_type = "application/x-www-form-urlencoded" ∷ [];
  require_source_target = true;
  block_self_ping = true;
}

abbrev pub default_metrics : MetricsConfig
default_metrics = record { enabled = true; path = "/metrics" }

abbrev pub default_config : Config
default_config = record {
  bind_addr = "0.0.0.0:8080";
  rate_limit = default_rate_limit;
  validation = default_validation;
  metrics = default_metrics;
}

-- `Duration::from_millis`, `Duration::from_secs`
abbrev pub cooldown_duration : RateLimitConfig → ℕ
cooldown_duration c = c.cooldown_on_burst_ms * 1000000

abbrev pub window_duration : RateLimitConfig → ℕ
window_duration c = c.window_secs * 1000000000

or_else {ℓ} : {A : Type ℓ} → Option A → A → A
or_else none d = d
or_else (some a) d = a

read_uint : ℕ → Option String → ℕ → ℕ
unfolding or_else
read_uint bound none d = d
read_uint bound (some v) d = or_else (parse_uint bound v) d

-- The environment is a function from names to values; a value that is not UTF-8 counts as absent,
-- as `std::env::var` has it.
unfoldable pub load_config : (String → Option String) → Config
unfolding read_uint
load_config var = record default_config {
  bind_addr = or_else (var "BIND_ADDR") "0.0.0.0:8080";
  rate_limit = record default_rate_limit {
    max_rate_rpm = read_uint (2 ^ 32) (var "MAX_RATE_RPM") 60;
    max_rate_per_source = read_uint (2 ^ 32) (var "MAX_RATE_PER_SOURCE") 10;
    cooldown_on_burst_ms = read_uint (2 ^ 64) (var "COOLDOWN_MS") 30000;
  };
}
