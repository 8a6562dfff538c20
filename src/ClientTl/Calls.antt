-- ===== src/ClientTl/Calls.antt =====
-- Each call of a client keeps what `Settings` says of it.
use wagonet.Prelude.{
  ℕ, ◌≡◌, ◌∙◌, Bool, true, false, Option, none, some, List, arith, inl, inr, not, ◌&&◌, ltb,
}
use wagonet.Errors.{Error, Result, ok, err}
use wagonet.Timeouts.{TimeoutConfig}
use wagonet.Socket.{Socket}
use wagonet.Ping.{Locks, touch_activity}
use wagonet.Ping.Tasks.{stop_ping_task-settings}
use wagonet.ClientTl.{
  ClientTl, World, Attempt, close_if, configure_ping, set_keep_alive, set_timeout_config, conclude,
  message_exchange, establish, connect, disconnect, exchange_on, handle_message,
}
use wagonet.ClientTl.Locked.{Link}
use wagonet.ClientTl.Dropping.{connect_cases, handle_message_cases}
use wagonet.ClientTl.Settings.{
  stop-IsTracked, IsSound-by, stop-Agrees, establish-IsSound, IsFree, IsSound, agrees,
  set_timeout_config_lem,
}

module _ (socket : Socket) where
  pub connect-IsSound :
      (dial : ℕ → ℕ → Attempt socket) (locks : Locks) (c : ClientTl socket)
      → IsFree socket locks
      → IsSound socket c
      → IsSound socket (connect socket dial locks c).1
  connect-IsSound dial locks c free sound = elim (connect_cases socket dial locks c) [
    | inl kept ↦ rw kept sound
    | inr (stream, made) ↦ rw made (establish-IsSound socket locks stream c free sound)
  ]

  pub disconnect-IsSound :
      (locks : Locks) (c : ClientTl socket)
      → IsFree socket locks
      → IsSound socket c
      → IsSound socket (disconnect socket locks c).1
  unfolding disconnect
  disconnect-IsSound locks c free sound =
      IsSound-by socket _ sound.valid
        (stop-Agrees socket locks c.timeout_config c.ping_state free (agrees socket c sound))

  reconfigured :
      (close : Bool) (locks : Locks) (enabled : Bool) (c : ClientTl socket)
      → IsFree socket locks
      → IsSound socket c
      → let interval = c.ping_state.config.interval in
        IsSound socket (
          configure_ping socket
            (record { interval = interval; enabled = enabled && ltb 0 interval })
            (record (close_if socket close locks c) { keep_alive = enabled }))
  unfolding configure_ping close_if
  reconfigured false locks enabled c free sound = record {
    valid = sound.valid;
    interval = sound.interval;
    timeouts = sound.timeouts;
    tracked = sound.tracked;
  }
  reconfigured true locks enabled c free sound = record {
    valid = sound.valid;
    interval = sound.interval;
    timeouts = (stop_ping_task-settings locks c.ping_state).1 ∙ sound.timeouts;
    tracked = stop-IsTracked socket locks c.ping_state free sound.tracked;
  }

  pub set_keep_alive-IsSound :
      (locks : Locks) (enabled : Bool) (c : ClientTl socket)
      → IsFree socket locks
      → IsSound socket c
      → IsSound socket (set_keep_alive socket locks enabled c)
  unfolding set_keep_alive
  set_keep_alive-IsSound locks enabled c free sound =
      reconfigured (not enabled && c.keep_alive) locks enabled c free sound

  set_timeout_config-tasks :
      (t : TimeoutConfig) (c : ClientTl socket)
      → ((set_timeout_config socket t c).1.ping_state.alive ≡ c.ping_state.alive)
        × ((set_timeout_config socket t c).1.ping_state.task_handle ≡ c.ping_state.task_handle)
  unfolding set_timeout_config
  set_timeout_config-tasks t c = (ground arith, ground arith)

  pub set_timeout_config-IsSound :
      (t : TimeoutConfig) (c : ClientTl socket)
      → IsSound socket c
      → IsSound socket (set_timeout_config socket t c).1
  set_timeout_config-IsSound t c sound = elim (set_timeout_config_lem socket t c) [
    | inl (x, _, kept) ↦ rw kept sound
    | inr (_, _, valid, same_interval, same_timeouts, _) ↦ record {
      valid = valid;
      interval = same_interval;
      timeouts = same_timeouts;
      tracked =
          (let (same_alive, same_handle) = set_timeout_config-tasks t c in
            rw (same_alive, same_handle) sound.tracked);
    }
  ]

  conclude-IsSound :
      (w : World socket) (result : Result Error (List ℕ)) (link : Link socket) (c : ClientTl socket)
      → IsFree socket w.failure_locks
      → IsSound socket c
      → IsSound socket (conclude socket w result link c).1
  unfolding conclude touch_activity
  conclude-IsSound w (ok response) link c free sound = record {
    valid = sound.valid;
    interval = sound.interval;
    timeouts = sound.timeouts;
    tracked = sound.tracked;
  }
  conclude-IsSound w (err e) link c free sound = IsSound-by socket _ sound.valid (
      stop-Agrees socket w.failure_locks c.timeout_config c.ping_state free (agrees socket c sound))

  exchange_on-IsSound :
      (w : World socket) (command : ℕ) (message : List ℕ) (s : Option socket.State)
      (c : ClientTl socket)
      → IsFree socket w.failure_locks
      → IsSound socket c
      → IsSound socket (exchange_on socket w command message s c).1
  unfolding exchange_on
  exchange_on-IsSound w command message none c free sound = sound
  exchange_on-IsSound w command message (some s) c free sound =
      let r =
        message_exchange socket c command message (record { stream = s; buffer = c.buffer }) in
      conclude-IsSound w r.0 r.1 c free sound

  pub handle_message-IsSound :
      (w : World socket) (command : ℕ) (message : List ℕ) (c : ClientTl socket)
      → IsFree socket w.connect_locks
      → IsFree socket w.failure_locks
      → IsSound socket c
      → IsSound socket (handle_message socket w command message c).1
  handle_message-IsSound w command message c free free' sound =
      elim (handle_message_cases socket w command message c) [
        | inl (_, (x, kept)) ↦ rw kept sound
        | inr (inl is) ↦ rw is (exchange_on-IsSound w command message c.stream c free' sound)
        | inr (inr (_, stream, is)) ↦ rw is (
            exchange_on-IsSound w command message (some stream)
              (establish socket w.connect_locks stream c) free'
              (establish-IsSound socket w.connect_locks stream c free sound))
      ]
