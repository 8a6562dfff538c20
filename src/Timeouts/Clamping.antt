-- ===== src/Timeouts/Clamping.antt =====
-- What the clamping of the ping interval ensures, and which configurations are valid after it.
use wagonet.Prelude.{ℕ, ◌≤◌, ◌<◌, ◌≡◌, ◌↔◌, arith, ◌/◌}
use wagonet.Errors.{ok}
use wagonet.Timeouts.{
  TimeoutConfig, validate, with_ping_interval, from_secs, ping_clamp_halve_threshold,
}

-- The invariant that the configuration keeps.
pub record IsValid (c : TimeoutConfig) : Type 0 where
  pub connect_total_pos : 0 < c.connect_total
  pub ping_write_pos : 0 < c.ping_write
  pub ping_before_timeout : c.ping_interval < c.read_header

-- `validate` accepts exactly the configurations whose total connect timeout and ping write timeout
-- are not zero and whose ping interval is below the header timeout.
pub validate_iff : (c : TimeoutConfig) → (validate c ≡ ok tt) ↔ IsValid c
unfolding validate
validate_iff c = (
  λ h. record {
    connect_total_pos = ground arith;
    ping_write_pos = ground arith;
    ping_before_timeout = ground arith;
  },
  λ v. ground (arith, v.connect_total_pos, v.ping_write_pos, v.ping_before_timeout),
)

-- Clamping never raises the interval that was asked for, leaves one that is already below the
-- header timeout, and otherwise puts it below that timeout, unless the timeout is zero.
pub with_ping_interval_bounds :
    (c : TimeoutConfig) (i : ℕ)
    → ((with_ping_interval c i).ping_interval ≤ i)
      × (i < c.read_header → (with_ping_interval c i).ping_interval ≡ i)
      × (0 < c.read_header → (with_ping_interval c i).ping_interval < c.read_header)
unfolding with_ping_interval
with_ping_interval_bounds c i = (ground arith, λ h. ground arith, λ h. ground arith)

-- A clamped configuration is valid exactly if its total connect timeout, its ping write timeout and
-- its header timeout are not zero.
pub validate-with_ping_interval :
    (c : TimeoutConfig) (i : ℕ)
    → (validate (with_ping_interval c i) ≡ ok tt)
      ↔ ((0 < c.connect_total) × (0 < c.ping_write) × (0 < c.read_header))
unfolding validate with_ping_interval
validate-with_ping_interval c i = (λ h. ground arith, λ h. ground arith)

-- With a header timeout under 200 ms an interval of no less than it is clamped to zero.
pub with_ping_interval_zero :
    (c : TimeoutConfig) (i : ℕ)
    → c.read_header < ping_clamp_halve_threshold
    → c.read_header ≤ i
    → (with_ping_interval c i).ping_interval ≡ 0
unfolding with_ping_interval
with_ping_interval_zero c i small long = ground arith

-- With a header timeout from 200 ms to one second it is clamped to half of that.
pub with_ping_interval_half :
    (c : TimeoutConfig) (i : ℕ)
    → ping_clamp_halve_threshold ≤ c.read_header
    → c.read_header ≤ from_secs 1
    → c.read_header ≤ i
    → (with_ping_interval c i).ping_interval ≡ c.read_header / 2
unfolding with_ping_interval
with_ping_interval_half c i lo hi long = ground arith
