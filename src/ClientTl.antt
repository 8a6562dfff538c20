-- ===== src/ClientTl.antt =====
-- src/client_tl.rs: the plain TCP client. Log lines and the socket's own keep-alive option are left
-- out. The client's calls run one at a time; `in_flight` keeps the ping task out of an exchange.
pub mod Locked
pub mod Transfers
pub mod Messages
pub mod Exchange
pub mod Dropping
pub mod Stalls
pub mod Settings
pub mod Calls
pub mod Lifetime
pub mod Connecting
use wagonet.Prelude.{
  ℕ, zero, suc, ◌+◌, ◌-◌, ◌≤◌, String, Bool, true, false, not, ◌&&◌, ◌||◌, Option, none, some, List,
  [], ltb, leb, ◌==◌, if◌then◌else◌, length,
}
use wagonet.Errors.{
  Error, IoError, Result, ok, err, io, timeout, config, text, cannot_be_reserved, from_str, from_io,
  not_connected, Timed, in_time, elapsed,
}
use wagonet.Action.{Action, pure, raise, lift, gets, modify, ◌>>=◌, ◌>>◌}
use wagonet.Timeouts.{
  TimeoutConfig, default_timeout_config, default_max_connect_retries, validate, with_ping_interval,
}
use wagonet.Vec.{Vec, with_capacity, reserve}
use wagonet.Socket.{Socket}
use wagonet.Socket.Reading.{default_max_buffer_size}
use wagonet.Ping
use wagonet.Ping.{PingState, PingConfig, Locks, start_ping_task, stop_ping_task, touch_activity}
use Locked.{Link, send_message, receive_message}

module _ (socket : Socket) where
  pub record ClientTl : Type 0 where
    pub address : String
    pub stream : Option socket.State
    pub command_has_answer : Bool
    pub buffer : Vec
    pub max_buffer_size : ℕ
    pub timeout_config : TimeoutConfig
    pub keep_alive : Bool
    pub ping_state : PingState

  unfoldable pub new : String → ℕ → ClientTl
  unfolding Ping.new with_capacity
  new address now = record {
    address = address;
    stream = none;
    command_has_answer = true;
    buffer = with_capacity default_max_buffer_size;
    max_buffer_size = default_max_buffer_size;
    timeout_config = default_timeout_config;
    keep_alive = false;
    ping_state =
        Ping.new
          (record {
            interval = default_timeout_config.ping_interval;
            enabled = ltb 0 default_timeout_config.ping_interval;
          })
          default_timeout_config now;
  }

  -- `can_reserve` is the allocator's answer to `try_reserve`.
  unfoldable pub set_max_buffer_size : (ℕ → Bool) → ℕ → Action ClientTl (Unit {0})
  unfolding reserve
  set_max_buffer_size can_reserve buffer_size c =
      let limit = if ltb 0 buffer_size then buffer_size else default_max_buffer_size in
      let additional = limit - length c.buffer.items in
      if can_reserve additional
      then (ok tt, record c { buffer = reserve additional c.buffer; max_buffer_size = limit })
      else (err (config (cannot_be_reserved limit)), c)

  unfoldable pub set_command_has_answer : Bool → ClientTl → ClientTl
  set_command_has_answer command_has_answer c = record c { command_has_answer = command_has_answer }

  unfoldable pub close_if : Bool → Locks → ClientTl → ClientTl
  close_if true locks c = record c { stream = none; ping_state = stop_ping_task locks c.ping_state }
  close_if false locks c = c

  unfoldable pub configure_ping : PingConfig → ClientTl → ClientTl
  configure_ping p c = record c { ping_state = record (c.ping_state) { config = p } }

  unfoldable pub set_keep_alive : Locks → Bool → ClientTl → ClientTl
  unfolding close_if configure_ping
  set_keep_alive locks enabled c =
      let interval = c.ping_state.config.interval in
      configure_ping (record { interval = interval; enabled = enabled && ltb 0 interval })
        (record (close_if (not enabled && c.keep_alive) locks c) { keep_alive = enabled })

  unfoldable pub adopt_config : TimeoutConfig → Action ClientTl (Unit {0})
  adopt_config t c = (
    ok tt,
    record c {
      timeout_config = t;
      ping_state = record (c.ping_state) {
        config = record {
          interval = t.ping_interval;
          enabled = c.keep_alive && ltb 0 t.ping_interval;
        };
        timeout_config = t;
      };
    },
  )

  unfoldable pub set_timeout_config : TimeoutConfig → Action ClientTl (Unit {0})
  unfolding adopt_config
  set_timeout_config timeout_config = do
    lift (validate (with_ping_interval timeout_config timeout_config.ping_interval))
    adopt_config (with_ping_interval timeout_config timeout_config.ping_interval)

  -- How one `timeout(connect, TcpStream::connect(..))` ends; `total_elapsed` is the overall deadline,
  -- which expires in this attempt or in the sleep behind it.
  pub data Attempt : Type 0 where
    connected : socket.State → Attempt
    refused : IoError → Attempt
    attempt_elapsed : Attempt
    total_elapsed : Attempt

  unfoldable pub start_if : Bool → PingState → PingState
  start_if true p = start_ping_task p
  start_if false p = p

  unfoldable pub establish : Locks → socket.State → ClientTl → ClientTl
  unfolding start_if
  establish locks stream c =
      let p = stop_ping_task locks c.ping_state in
      record c { stream = some stream; ping_state = start_if (c.keep_alive && p.config.enabled) p }

  unfoldable pub is_none : Option socket.State → Bool
  is_none none = true
  is_none (some s) = false

  -- `while tries < DEFAULT_MAX_CONNECT_RETRIES`, by the tries that are left, and the check behind it
  unfoldable pub connect_loop : ℕ → ℕ → (ℕ → ℕ → Attempt) → Locks → Action ClientTl (Unit {0})
  unfolding is_none
  connect_loop zero tries dial locks c =
      if is_none c.stream && leb default_max_connect_retries tries
      then (err (from_str "Connection error, max retries reached"), c)
      else (ok tt, c)
  connect_loop (suc left) tries dial locks c = elim (dial c.timeout_config.connect tries) [
    | connected stream ↦ (ok tt, establish locks stream c)
    | refused e ↦ connect_loop left (tries + 1) dial locks c
    | attempt_elapsed ↦ connect_loop left (tries + 1) dial locks c
    | total_elapsed ↦ (err (timeout (text "connect total deadline exceeded")), c)
  ]

  -- `dial` is the network: the end of each attempt, by its timeout and its number.
  unfoldable pub connect : (ℕ → ℕ → Attempt) → Locks → Action ClientTl (Unit {0})
  unfolding connect_loop
  connect dial locks = connect_loop default_max_connect_retries 0 dial locks

  unfoldable pub shut_down : Option socket.State → Result Error (Unit {0})
  unfolding from_io
  shut_down none = ok tt
  shut_down (some s) = from_io (socket.shutdown s).0

  unfoldable pub disconnect : Locks → Action ClientTl (Unit {0})
  unfolding shut_down
  disconnect locks c = (
    shut_down c.stream,
    record c { stream = none; ping_state = stop_ping_task locks c.ping_state },
  )

  -- What `handle_message` meets outside the client: the network, the locks of the ping state when
  -- it connects and when an exchange has failed, and the time at the end.
  pub record World : Type 0 where
    pub dial : ℕ → ℕ → Attempt
    pub connect_locks : Locks
    pub failure_locks : Locks
    pub now : ℕ

  unfoldable pub connect_if : Bool → World → Action ClientTl (Unit {0})
  connect_if true w = connect w.dial w.connect_locks
  connect_if false w = pure tt

  -- the request and the response, on the stream and the buffer that the client lends
  unfoldable pub message_exchange : ClientTl → ℕ → List ℕ → Action (Link socket) (List ℕ)
  message_exchange c command request_data = do
    send_message socket c.timeout_config c.command_has_answer c.max_buffer_size command request_data
    receive_message socket c.timeout_config c.command_has_answer c.max_buffer_size

  unfoldable pub conclude :
      World → Result Error (List ℕ) → Link socket → ClientTl → Result Error (List ℕ) × ClientTl
  conclude w (ok response) link c = (
    ok response,
    record c {
      stream = some link.stream;
      buffer = link.buffer;
      ping_state = touch_activity w.now c.ping_state;
    },
  )
  conclude w (err e) link c = (
    err e,
    record c {
      stream = none;
      buffer = link.buffer;
      ping_state = stop_ping_task w.failure_locks c.ping_state;
    },
  )

  unfoldable pub exchange_on : World → ℕ → List ℕ → Option socket.State → Action ClientTl (List ℕ)
  unfolding conclude
  exchange_on w command request_data none c = (err not_connected, c)
  exchange_on w command request_data (some stream) c =
      let (result, link) =
        message_exchange c command request_data (record { stream = stream; buffer = c.buffer }) in
      conclude w result link c

  unfoldable pub handle_message : World → ℕ → List ℕ → Action ClientTl (List ℕ)
  unfolding connect_if is_none
  handle_message w command request_data = do
    needs_connection ← gets (λ c. not c.keep_alive || is_none c.stream)
    connect_if needs_connection w
    stream ← gets (λ c. c.stream)
    exchange_on w command request_data stream

  -- `NoAnswerGuard` sets the flag again when it is dropped, on success and on failure.
  unfoldable pub handle_message_with_no_answer : World → ℕ → List ℕ → Action ClientTl (List ℕ)
  handle_message_with_no_answer w command request_data c =
      let (result, c') =
        handle_message w command request_data (record c { command_has_answer = false }) in
      (result, record c' { command_has_answer = true })

  -- `Drop for ClientTL`: the task is aborted and signalled.
  unfoldable pub drop_client : Locks → ClientTl → ClientTl
  drop_client locks c = record c { ping_state = stop_ping_task locks c.ping_state }
