-- ===== src/Ping.antt =====
-- src/ping.rs: the ping exchange, the shared state of the ping task, and the task itself.
pub mod Replies
pub mod Tasks
use wagonet.Prelude.{
  ℕ, suc, ◌+◌, ◌-◌, ◌/◌, Bool, true, false, Option, none, some, List, [], ◌∷◌, ltb, ◌==◌,
  if◌then◌else◌,
}
use wagonet.Errors.{
  Error, IoError, Result, ok, err, io, timeout, protocol, text, response_error, connection_closed,
  unexpected_eof, from_io, Timed, in_time, elapsed,
}
use wagonet.Action.{Action, pure, raise, lift, ◌>>=◌, ◌>>◌}
use wagonet.Headers.Bytes.{u32_from_be_bytes}
use wagonet.Headers.Status.{command_code, ping}
use wagonet.Headers.{encode_request}
use wagonet.Timeouts.{default_ping_interval, TimeoutConfig, from_millis}
use wagonet.Socket.{Socket}

abbrev pub ping_check_divisor : ℕ
ping_check_divisor = 4

abbrev pub min_ping_check_interval : ℕ
min_ping_check_interval = from_millis 100

abbrev pub ping_old_format_read_timeout : ℕ
ping_old_format_read_timeout = from_millis 10

pub record PingConfig : Type 0 where
  pub interval : ℕ
  pub enabled : Bool

-- The state behind the mutexes of `PingState`. A task is known by a number; `alive` lists the tasks
-- that were spawned and have neither ended nor been aborted, newest first.
pub record PingState : Type 0 where
  pub last_activity : ℕ
  pub task_handle : Option ℕ
  pub should_stop : Bool
  pub config : PingConfig
  pub timeout_config : TimeoutConfig
  pub next_task : ℕ
  pub alive : List ℕ

unfoldable pub new : PingConfig → TimeoutConfig → ℕ → PingState
new config timeout_config now = record {
  last_activity = now;
  task_handle = none;
  should_stop = false;
  config = config;
  timeout_config = timeout_config;
  next_task = 0;
  alive = [];
}

unfoldable pub touch_activity : ℕ → PingState → PingState
touch_activity now p = record p { last_activity = now }

abbrev pub default_ping_config : PingConfig
default_ping_config = record { interval = default_ping_interval; enabled = true }

-- `Instant::elapsed` is zero for a time that has not come yet.
abbrev pub elapsed_since_activity : ℕ → PingState → ℕ
elapsed_since_activity now p = now - p.last_activity

abbrev pub interval : PingState → ℕ
interval p = p.config.interval

abbrev pub is_enabled : PingState → Bool
is_enabled p = p.config.enabled

unfoldable pub set_should_stop : Bool → PingState → PingState
set_should_stop val p = record p { should_stop = val }

unfoldable pub take_task_handle : PingState → Option ℕ × PingState
take_task_handle p = (p.task_handle, record p { task_handle = none })

-- What the `try_lock` calls of `stop_ping_task` find.
pub record Locks : Type 0 where
  pub should_stop_free : Bool
  pub task_handle_free : Bool

unfoldable pub without : ℕ → List ℕ → List ℕ
without t [] = []
without t (u ∷ ts) = let rest = without t ts in if u == t then rest else u ∷ rest

-- `handle.abort()`
unfoldable pub abort : Option ℕ → List ℕ → List ℕ
abort none tasks = tasks
abort (some t) tasks = without t tasks

signal_stop : Bool → PingState → PingState
signal_stop true p = record p { should_stop = true }
signal_stop false p = p

abort_task : Bool → PingState → PingState
unfolding abort
abort_task true p = record p { task_handle = none; alive = abort p.task_handle p.alive }
abort_task false p = p

unfoldable pub stop_ping_task : Locks → PingState → PingState
unfolding signal_stop abort_task
stop_ping_task locks p = abort_task locks.task_handle_free (signal_stop locks.should_stop_free p)

unfoldable pub start_ping_task : PingState → PingState
start_ping_task p =
    if is_enabled p
    then record p {
      should_stop = false;
      task_handle = some p.next_task;
      next_task = suc p.next_task;
      alive = p.next_task ∷ p.alive;
    }
    else p

-- How long a round of the task sleeps.
unfoldable pub check_interval : ℕ → ℕ
check_interval interval =
    if ltb (interval / ping_check_divisor) min_ping_check_interval
    then min_ping_check_interval
    else interval / ping_check_divisor

closed_or_io : IoError → Error
closed_or_io unexpected_eof = connection_closed
closed_or_io (IoError.other_kind k) = io (IoError.other_kind k)

first_byte : List ℕ → ℕ
first_byte [] = 0
first_byte (b ∷ bytes) = b

pub data Verdict : Type 0 where
  again stop : Verdict

-- What a round finds when its sleep is over: the time, and whether `in_flight` is free.
pub record Wakeup : Type 0 where
  pub now : ℕ
  pub in_flight_free : Bool

module _ (socket : Socket) where
  write_wait : List ℕ → Action socket.State (Unit {0})
  unfolding from_io
  write_wait bytes s = let (done, s') = socket.write_all_wait bytes s in (from_io done, s')

  flush_wait : Action socket.State (Unit {0})
  unfolding from_io
  flush_wait s = let (done, s') = socket.flush s in (from_io done, s')

  unfoldable pub send_ping_request : Action socket.State (Unit {0})
  unfolding write_wait flush_wait
  send_ping_request = do
    write_wait (encode_request (record { command = command_code ping; data_size = 0 }) [])
    flush_wait

  -- The read of the four bytes that only an old server sends.
  size_of_old_format : Action socket.State (Unit {0})
  size_of_old_format s =
      let (got, bytes, s') =
        socket.read_exact ping_old_format_read_timeout (0 ∷ 0 ∷ 0 ∷ 0 ∷ []) s in
      elim got [
        | in_time (ok _) ↦
            (if u32_from_be_bytes bytes == 0
              then (ok tt, s')
              else (err (protocol (text "ping response must have data_size 0")), s'))
        | in_time (err e) ↦ (err (io e), s')
        | elapsed ↦ (ok tt, s')
      ]

  unfoldable pub receive_ping_response : ℕ → Action socket.State (Unit {0})
  unfolding closed_or_io first_byte size_of_old_format
  receive_ping_response read_header_timeout s =
      let (got, bytes, s') = socket.read_exact read_header_timeout (0 ∷ []) s in
      elim got [
        | elapsed ↦ (err (timeout (text "Ping response header timeout")), s')
        | in_time (err e) ↦ (err (closed_or_io e), s')
        | in_time (ok _) ↦
            (if first_byte bytes == 1
              then size_of_old_format s'
              else (err (response_error (first_byte bytes)), s'))
      ]

  -- The ping itself: `send_ping_request_impl`, then `receive_ping_response_impl`.
  unfoldable pub exchange_ping : ℕ → Action socket.State (Unit {0})
  exchange_ping read_header = do send_ping_request; receive_ping_response read_header

  after_ping :
      Wakeup
      → Result Error (Unit {0})
      → socket.State
      → PingState
      → Verdict × PingState × Option socket.State
  after_ping w (ok _) s p = (again, record p { last_activity = w.now }, some s)
  after_ping w (err e) s p = (stop, record p { should_stop = true }, none)

  ping_now : Wakeup → PingState → Option socket.State → Verdict × PingState × Option socket.State
  unfolding after_ping
  ping_now w p none = (stop, record p { should_stop = true }, none)
  ping_now w p (some s) =
      let (result, s') = exchange_ping p.timeout_config.read_header s in after_ping w result s' p

  -- One round of the task's loop behind the sleep, on the shared state and stream.
  unfoldable pub ping_round :
      Wakeup → PingState → Option socket.State → Verdict × PingState × Option socket.State
  unfolding ping_now
  ping_round w p stream =
      if p.should_stop
      then (stop, p, stream)
      else if ltb (elapsed_since_activity w.now p) (interval p)
      then (again, p, stream)
      else if w.in_flight_free
      then ping_now w p stream
      else (again, p, stream)
