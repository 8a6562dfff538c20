-- ===== src/ClientTls.antt =====
-- src/client_tls.rs: the TLS client. Log lines and the socket's own keep-alive option are left out. The
-- client's calls run one at a time; `in_flight` keeps the ping task out of an exchange.
pub mod Locked
pub mod Mirrors
pub mod Connecting
pub mod Calls
pub mod Lifetime
pub mod Opening
pub mod Exchange
use wagonet.Prelude.{
  ℕ, zero, suc, ◌+◌, ◌-◌, ◌≤◌, String, Bool, true, false, not, ◌&&◌, ◌||◌, Option, none, some, List,
  [], ltb, leb, if◌then◌else◌, length,
}
use package.text.Mathlib.Text.{◌==◌}
use wagonet.Errors.{
  Error, Boxed, IoError, Result, ok, err, io, tls, other, timeout, config, text, cannot_be_reserved,
  from_str, from_io,
}
use wagonet.Action.{Action, BoxedAction, pure, raise, lift, gets, modify, ◌>>=◌, ◌>>◌}
use wagonet.Timeouts.{
  TimeoutConfig, default_timeout_config, default_max_connect_retries, validate, with_ping_interval,
}
use wagonet.Vec.{Vec, with_capacity, reserve}
use wagonet.Socket.{Socket}
use wagonet.Socket.Reading.{default_max_buffer_size}
use wagonet.Ping
use wagonet.Ping.{PingState, PingConfig, Locks, start_ping_task, stop_ping_task, touch_activity}
use wagonet.ClientTl.Locked.{Link}
use Locked.{send_message, receive_message}

abbrev pub placeholder_domain : String
placeholder_domain = "example.org"

-- `?` on a boxed error, in a function that returns the crate's error
unfoldable pub unbox {ℓ} : {A : Type ℓ} → Result Boxed A → Result Error A
unbox (ok a) = ok a
unbox (err e) = err (other e)

module _ (socket : Socket) where
  pub record ClientTls : Type 0 where
    pub accept_invalid_certs : Bool
    pub address : String
    pub domain : String
    pub tls_stream : Option socket.State
    pub command_has_answer : Bool
    pub buffer : Vec
    pub max_buffer_size : ℕ
    pub timeout_config : TimeoutConfig
    pub keep_alive : Bool
    pub ping_state : PingState

  unfoldable pub new : String → ℕ → ClientTls
  unfolding Ping.new with_capacity
  new address now = record {
    accept_invalid_certs = false;
    address = address;
    domain = placeholder_domain;
    tls_stream = none;
    command_has_answer = true;
    buffer = with_capacity default_max_buffer_size;
    max_buffer_size = default_max_buffer_size;
    timeout_config = default_timeout_config;
    keep_alive = false;
    ping_state =
        Ping.new
          (record {
            interval = default_timeout_config.ping_interval;
            enabled = ltb 0 default_timeout_config.ping_interval;
          })
          default_timeout_config now;
  }

  -- `can_reserve` is the allocator's answer to `try_reserve`.
  unfoldable pub set_max_buffer_size : (ℕ → Bool) → ℕ → Action ClientTls (Unit {0})
  unfolding reserve
  set_max_buffer_size can_reserve max_buffer_size c =
      let limit = if ltb 0 max_buffer_size then max_buffer_size else default_max_buffer_size in
      let additional = limit - length c.buffer.items in
      if can_reserve additional
      then (ok tt, record c { buffer = reserve additional c.buffer; max_buffer_size = limit })
      else (err (config (cannot_be_reserved limit)), c)

  unfoldable pub set_command_has_answer : Bool → ClientTls → ClientTls
  set_command_has_answer command_has_answer c = record c { command_has_answer = command_has_answer }

  unfoldable pub danger_accept_invalid_certs : Bool → ClientTls → ClientTls
  danger_accept_invalid_certs accept_invalid_certs c = record c {
    accept_invalid_certs = accept_invalid_certs;
  }

  unfoldable pub set_domain : String → ClientTls → ClientTls
  set_domain domain c = record c { domain = domain }

  unfoldable pub close_if : Bool → Locks → ClientTls → ClientTls
  close_if true locks c = record c {
    tls_stream = none;
    ping_state = stop_ping_task locks c.ping_state;
  }
  close_if false locks c = c

  unfoldable pub configure_ping : PingConfig → ClientTls → ClientTls
  configure_ping p c = record c { ping_state = record (c.ping_state) { config = p } }

  unfoldable pub set_keep_alive : Locks → Bool → ClientTls → ClientTls
  unfolding close_if configure_ping
  set_keep_alive locks enabled c =
      let interval = c.ping_state.config.interval in
      configure_ping (record { interval = interval; enabled = enabled && ltb 0 interval })
        (record (close_if (not enabled && c.keep_alive) locks c) { keep_alive = enabled })

  unfoldable pub adopt_config : TimeoutConfig → Action ClientTls (Unit {0})
  adopt_config t c = (
    ok tt,
    record c {
      timeout_config = t;
      ping_state = record (c.ping_state) {
        config = record {
          interval = t.ping_interval;
          enabled = c.keep_alive && ltb 0 t.ping_interval;
        };
        timeout_config = t;
      };
    },
  )

  unfoldable pub set_timeout_config : TimeoutConfig → Action ClientTls (Unit {0})
  unfolding adopt_config
  set_timeout_config timeout_config = do
    lift (validate (with_ping_interval timeout_config timeout_config.ping_interval))
    adopt_config (with_ping_interval timeout_config timeout_config.ping_interval)

  -- How one attempt ends: `timeout(connect, TcpStream::connect(..))` and, where it connects, the TLS
  -- handshake; `total_elapsed` is the overall deadline, which expires in this attempt or in the sleep
  -- behind it.
  pub data Attempt : Type 0 where
    connected : socket.State → Attempt
    handshake_failed : ℕ → Attempt
    refused : IoError → Attempt
    attempt_elapsed : Attempt
    total_elapsed : Attempt

  unfoldable pub start_if : Bool → PingState → PingState
  start_if true p = start_ping_task p
  start_if false p = p

  unfoldable pub establish : Locks → socket.State → ClientTls → ClientTls
  unfolding start_if
  establish locks stream c =
      let p = stop_ping_task locks c.ping_state in
      record c {
        tls_stream = some stream;
        ping_state = start_if (c.keep_alive && p.config.enabled) p;
      }

  unfoldable pub is_none : Option socket.State → Bool
  is_none none = true
  is_none (some s) = false

  -- `while tries < DEFAULT_MAX_CONNECT_RETRIES`, by the tries that are left, and the check behind it
  unfoldable pub connect_loop : ℕ → ℕ → (ℕ → ℕ → Attempt) → Locks → Action ClientTls (Unit {0})
  unfolding is_none
  connect_loop zero tries dial locks c =
      if is_none c.tls_stream && leb default_max_connect_retries tries
      then (err (from_str "Connection error, max retries reached"), c)
      else (ok tt, c)
  connect_loop (suc left) tries dial locks c = elim (dial c.timeout_config.connect tries) [
    | connected stream ↦ (ok tt, establish locks stream c)
    | handshake_failed e ↦ (err (tls e), c)
    | refused e ↦ connect_loop left (tries + 1) dial locks c
    | attempt_elapsed ↦ connect_loop left (tries + 1) dial locks c
    | total_elapsed ↦ (err (timeout (text "connect total deadline exceeded")), c)
  ]

  -- The TLS library and the network: `build` is the end of `builder.build()`, and `dial` of each
  -- attempt, by the settings that the handshake uses, its timeout and its number.
  pub record Network : Type 0 where
    pub build : (accept_invalid_certs : Bool) → Result ℕ (Unit {0})
    pub dial : (accept_invalid_certs : Bool) (domain : String) (timeout tries : ℕ) → Attempt

  unfoldable pub needs_domain : ClientTls → Bool
  needs_domain c = (c.domain == placeholder_domain) && not c.accept_invalid_certs

  unfoldable pub connect_built : Result ℕ (Unit {0}) → Network → Locks → Action ClientTls (Unit {0})
  unfolding connect_loop
  connect_built (ok u) w locks c =
      connect_loop default_max_connect_retries 0 (w.dial c.accept_invalid_certs c.domain) locks c
  connect_built (err e) w locks c = (err (tls e), c)

  unfoldable pub connect : Network → Locks → Action ClientTls (Unit {0})
  unfolding needs_domain connect_built
  connect w locks c =
      if needs_domain c
      then (err (config (text "TLS domain not set: call set_domain() before connecting")), c)
      else connect_built (w.build c.accept_invalid_certs) w locks c

  unfoldable pub shut_down : Option socket.State → Result Error (Unit {0})
  unfolding from_io
  shut_down none = ok tt
  shut_down (some s) = from_io (socket.shutdown s).0

  unfoldable pub disconnect : Locks → Action ClientTls (Unit {0})
  unfolding shut_down
  disconnect locks c = (
    shut_down c.tls_stream,
    record c { tls_stream = none; ping_state = stop_ping_task locks c.ping_state },
  )

  -- What `handle_message` meets outside the client: the network, the locks of the ping state when
  -- it connects and when an exchange has failed, and the time at the end.
  pub record World : Type 0 where
    pub network : Network
    pub connect_locks : Locks
    pub failure_locks : Locks
    pub now : ℕ

  unfoldable pub connect_if : Bool → World → Action ClientTls (Unit {0})
  connect_if true w = connect w.network w.connect_locks
  connect_if false w = pure tt

  -- the request and the response, on the stream and the buffer that the client lends
  unfoldable pub message_exchange : ClientTls → ℕ → List ℕ → BoxedAction (Link socket) (List ℕ)
  message_exchange c command request_data = do
    send_message socket c.timeout_config c.command_has_answer c.max_buffer_size command request_data
    receive_message socket c.timeout_config c.command_has_answer c.max_buffer_size

  unfoldable pub conclude :
      World → Result Error (List ℕ) → Link socket → ClientTls → Result Error (List ℕ) × ClientTls
  conclude w (ok response) link c = (
    ok response,
    record c {
      tls_stream = some link.stream;
      buffer = link.buffer;
      ping_state = touch_activity w.now c.ping_state;
    },
  )
  conclude w (err e) link c = (
    err e,
    record c {
      tls_stream = none;
      buffer = link.buffer;
      ping_state = stop_ping_task w.failure_locks c.ping_state;
    },
  )

  unfoldable pub exchange_on : World → ℕ → List ℕ → Option socket.State → Action ClientTls (List ℕ)
  unfolding conclude unbox
  exchange_on w command request_data none c = (err (from_str "Not connected"), c)
  exchange_on w command request_data (some stream) c =
      let (result, link) =
        message_exchange c command request_data (record { stream = stream; buffer = c.buffer }) in
      conclude w (unbox result) link c

  unfoldable pub handle_message : World → ℕ → List ℕ → Action ClientTls (List ℕ)
  unfolding connect_if is_none
  handle_message w command request_data = do
    needs_connection ← gets (λ c. not c.keep_alive || is_none c.tls_stream)
    connect_if needs_connection w
    stream ← gets (λ c. c.tls_stream)
    exchange_on w command request_data stream

  -- `NoAnswerGuard` sets the flag again when it is dropped, on success and on failure.
  unfoldable pub handle_message_with_no_answer : World → ℕ → List ℕ → Action ClientTls (List ℕ)
  handle_message_with_no_answer w command request_data c =
      let (result, c') =
        handle_message w command request_data (record c { command_has_answer = false }) in
      (result, record c' { command_has_answer = true })

  -- `Drop for ClientTLS`: the task is aborted and signalled.
  unfoldable pub drop_client : Locks → ClientTls → ClientTls
  drop_client locks c = record c { ping_state = stop_ping_task locks c.ping_state }
