-- ===== src/Timeouts.antt =====
-- src/timeout_config.rs. A `Duration` is its number of nanoseconds; dividing one by a whole number
-- rounds down, and `saturating_sub` stops at zero, as `-` does here.
pub mod Clamping
use wagonet.Prelude.{ℕ, ◌-◌, ◌*◌, ◌/◌, Option, none, ◌&&◌, leb, ltb, ◌==◌, if◌then◌else◌}
use wagonet.Errors.{Error, Result, ok, err, config, text, ping_interval_invariant}

abbrev pub from_millis : ℕ → ℕ
from_millis n = n * 1_000_000

abbrev pub from_secs : ℕ → ℕ
from_secs n = n * 1_000_000_000

pub record KeepAliveConfig : Type 0 where
  pub time : ℕ
  pub interval : ℕ

pub record TimeoutConfig : Type 0 where
  pub connect : ℕ
  pub read_header : ℕ
  pub read_data : ℕ
  pub write : ℕ
  pub keep_alive : Option KeepAliveConfig
  pub connect_total : ℕ
  pub ping_write : ℕ
  pub ping_interval : ℕ

abbrev pub default_max_connect_retries : ℕ
default_max_connect_retries = 10

abbrev pub default_connect_retry_delay : ℕ
default_connect_retry_delay = from_secs 1

abbrev pub ping_clamp_subtraction : ℕ
ping_clamp_subtraction = from_secs 1

abbrev pub ping_clamp_halve_threshold : ℕ
ping_clamp_halve_threshold = from_millis 200

abbrev pub ping_clamp_halve_divisor : ℕ
ping_clamp_halve_divisor = 2

abbrev pub default_ping_interval : ℕ
default_ping_interval = from_secs 30

abbrev pub default_keep_alive_config : KeepAliveConfig
default_keep_alive_config = record { time = from_secs 30; interval = from_secs 10 }

abbrev pub default_timeout_config : TimeoutConfig
default_timeout_config = record {
  connect = from_secs 10;
  read_header = from_secs 60;
  read_data = from_secs 60;
  write = from_secs 60;
  keep_alive = none;
  connect_total = from_secs 30;
  ping_write = from_secs 5;
  ping_interval = default_ping_interval;
}

unfoldable pub validate : TimeoutConfig → Result Error (Unit {0})
validate c =
    if c.connect_total == 0
    then err (config (text "connect_total must be greater than zero"))
    else if c.ping_write == 0
    then err (config (text "ping_write must be greater than zero"))
    else if leb c.read_header c.ping_interval
    then err (config (ping_interval_invariant c.ping_interval c.read_header))
    else ok tt

-- The `ping_interval` that `with_ping_interval` settles on.
clamp_ping_interval : ℕ → ℕ → ℕ
clamp_ping_interval read_header interval =
    let clamped = read_header - ping_clamp_subtraction in
    if leb read_header interval
    then (if ltb 0 read_header
        then (if clamped == 0 && leb ping_clamp_halve_threshold read_header
            then read_header / ping_clamp_halve_divisor
            else clamped)
        else 0)
    else interval

unfoldable pub with_ping_interval : TimeoutConfig → ℕ → TimeoutConfig
unfolding clamp_ping_interval
with_ping_interval c interval = record c {
  ping_interval = clamp_ping_interval c.read_header interval;
}
