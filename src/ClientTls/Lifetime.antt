-- ===== src/ClientTls/Lifetime.antt =====
-- The life of a TLS client (src/client_tls.rs), as a life of the plain client.
use wagonet.Prelude.{
  ℕ, ◌-◌, length, if◌then◌else◌, ◌≡◌, refl, ap, Bool, Option, none, some, true, false, not, ◌&&◌,
  ltb, List, String, ◌⊎◌, inl, inr,
}
use wagonet.Action.Mirroring.{if-MirrorsAt, Mirrors, lift-Mirrors, >>=-Mirrors, mirrors_at}
use wagonet.Timeouts.{TimeoutConfig, validate, with_ping_interval}
use wagonet.Ping.{Locks, Wakeup, ping_round, without}
use wagonet.Socket.{Socket}
use wagonet.Socket.Reading.{default_max_buffer_size}
use wagonet.ClientTl as Tl
use wagonet.ClientTl.{ClientTl}
use wagonet.ClientTl.Lifetime as TlLifetime
use wagonet.ClientTl.Settings.{IsFree, IsSound}
use wagonet.ClientTls.{
  ClientTls, World, Network, new, set_max_buffer_size, set_command_has_answer, set_domain,
  danger_accept_invalid_certs, set_keep_alive, set_timeout_config, adopt_config, close_if,
  configure_ping, shut_down, connect, disconnect, handle_message, handle_message_with_no_answer,
  needs_domain,
}
use wagonet.ClientTls.Mirrors.{Agree-refl}
use wagonet.ClientTls.Connecting.{as_tl, as_dial, as_world, Same, connect-Same}
use wagonet.ClientTls.Calls.{handle_message-Same}

module _ (socket : Socket) where
  new-as_tl :
      (address : String) (now : ℕ)
      → as_tl socket (new socket address now) ≡ Tl.new socket address now
  unfolding new Tl.new
  new-as_tl address now = refl

  shut_down-same : (s : Option socket.State) → shut_down socket s ≡ Tl.shut_down socket s
  unfolding shut_down Tl.shut_down
  shut_down-same none = refl
  shut_down-same (some s) = refl

  disconnect-Same :
      (locks : Locks) (c : ClientTls socket)
      → Same socket (disconnect socket locks c) (Tl.disconnect socket locks (as_tl socket c))
  unfolding disconnect Tl.disconnect
  disconnect-Same locks c = record {
    result_at = rw (shut_down-same c.tls_stream) (Agree-refl _);
    object_at = refl;
  }

  set_max_buffer_size-Same :
      (can_reserve : ℕ → Bool) (size : ℕ) (c : ClientTls socket)
      → Same socket
          (set_max_buffer_size socket can_reserve size c)
          (Tl.set_max_buffer_size socket can_reserve size (as_tl socket c))
  unfolding set_max_buffer_size Tl.set_max_buffer_size
  set_max_buffer_size-Same can_reserve size c =
      let limit = if ltb 0 size then size else default_max_buffer_size in
      if-MirrorsAt (can_reserve (limit - length c.buffer.items))
        (record { result_at = refl; object_at = refl })
        (record { result_at = tt; object_at = refl })

  close_if-as_tl :
      (close : Bool) (locks : Locks) (c : ClientTls socket)
      → as_tl socket (close_if socket close locks c)
        ≡ Tl.close_if socket close locks (as_tl socket c)
  unfolding close_if Tl.close_if
  close_if-as_tl true locks c = refl
  close_if-as_tl false locks c = refl

  set_keep_alive-as_tl :
      (locks : Locks) (enabled : Bool) (c : ClientTls socket)
      → as_tl socket (set_keep_alive socket locks enabled c)
        ≡ Tl.set_keep_alive socket locks enabled (as_tl socket c)
  unfolding set_keep_alive Tl.set_keep_alive configure_ping Tl.configure_ping
  set_keep_alive-as_tl locks enabled c =
      let interval = c.ping_state.config.interval in
      ap
        (λ (c' : ClientTl socket).
          Tl.configure_ping socket
            (record { interval = interval; enabled = enabled && ltb 0 interval })
            (record c' { keep_alive = enabled }))
        (close_if-as_tl (not enabled && c.keep_alive) locks c)

  adopt_config-Mirrors :
      (t : TimeoutConfig)
      → Mirrors (as_tl socket) (λ e f. Unit {0}) (adopt_config socket t) (Tl.adopt_config socket t)
  unfolding adopt_config Tl.adopt_config
  adopt_config-Mirrors t = record { same_result = λ c. refl; same_object = λ c. refl }

  set_timeout_config-Same :
      (t : TimeoutConfig) (c : ClientTls socket)
      → Same socket
          (set_timeout_config socket t c)
          (Tl.set_timeout_config socket t (as_tl socket c))
  unfolding set_timeout_config Tl.set_timeout_config
  set_timeout_config-Same t c =
      let clamped = with_ping_interval t t.ping_interval in
      mirrors_at
        (>>=-Mirrors (lift-Mirrors (validate clamped) (validate clamped) (Agree-refl _))
          λ u. adopt_config-Mirrors clamped)
        c

  quiet-Same :
      (w : World socket) (command : ℕ) (message : List ℕ) (c : ClientTls socket)
      → Same socket (handle_message_with_no_answer socket w command message c) (
          Tl.handle_message_with_no_answer socket
            (as_world socket w (as_dial socket w.network c))
            command
            message
            (as_tl socket c))
  unfolding handle_message_with_no_answer Tl.handle_message_with_no_answer as_dial needs_domain
  quiet-Same w command message c =
      let like =
        handle_message-Same socket w command message (record c { command_has_answer = false }) in
      record {
        result_at = like.result_at;
        object_at =
            ap (λ (c' : ClientTl socket). record c' { command_has_answer = true }) like.object_at;
      }

  -- Everything that happens to a TLS client: the calls of its owner, and the end and the rounds of
  -- its ping task. In every step the lock of the task's handle is free.
  pub data Step : ClientTls socket → ClientTls socket → Type 0 where
    message :
        (w : World socket) (command : ℕ) (bytes : List ℕ) {c : ClientTls socket}
        → IsFree socket w.connect_locks
        → IsFree socket w.failure_locks
        → Step c (handle_message socket w command bytes c).1
    quiet_message :
        (w : World socket) (command : ℕ) (bytes : List ℕ) {c : ClientTls socket}
        → IsFree socket w.connect_locks
        → IsFree socket w.failure_locks
        → Step c (handle_message_with_no_answer socket w command bytes c).1
    connecting :
        (w : Network socket) (locks : Locks) {c : ClientTls socket}
        → IsFree socket locks
        → Step c (connect socket w locks c).1
    disconnecting :
        (locks : Locks) {c : ClientTls socket}
        → IsFree socket locks
        → Step c (disconnect socket locks c).1
    keeping_alive :
        (locks : Locks) (enabled : Bool) {c : ClientTls socket}
        → IsFree socket locks
        → Step c (set_keep_alive socket locks enabled c)
    timing : (t : TimeoutConfig) {c : ClientTls socket} → Step c (set_timeout_config socket t c).1
    sizing :
        (can_reserve : ℕ → Bool) (size : ℕ) {c : ClientTls socket}
        → Step c (set_max_buffer_size socket can_reserve size c).1
    answering :
        (answer : Bool) {c : ClientTls socket} → Step c (set_command_has_answer socket answer c)
    naming : (domain : String) {c : ClientTls socket} → Step c (set_domain socket domain c)
    trusting :
        (accept : Bool) {c : ClientTls socket}
        → Step c (danger_accept_invalid_certs socket accept c)
    round :
        (w : Wakeup) {c : ClientTls socket}
        → Step c (record c {
          ping_state = (ping_round socket w c.ping_state c.tls_stream).1;
          tls_stream = (ping_round socket w c.ping_state c.tls_stream).2;
        })
    task_ends :
        (t : ℕ) {c : ClientTls socket}
        → Step c (record c {
          ping_state = record (c.ping_state) { alive = without t c.ping_state.alive };
        })

  pub data Reachable : ClientTls socket → Type 0 where
    born : (address : String) (now : ℕ) → Reachable (new socket address now)
    lives : {c c' : ClientTls socket} → Reachable c → Step c c' → Reachable c'

  -- A step of the TLS client is a step of the plain one, or none.
  Step-as_tl :
      {c c' : ClientTls socket}
      → Step c c'
      → TlLifetime.Step socket (as_tl socket c) (as_tl socket c')
        ⊎ (as_tl socket c' ≡ as_tl socket c)
  unfolding set_command_has_answer Tl.set_command_has_answer set_domain danger_accept_invalid_certs
  Step-as_tl (message w command bytes {c} free free') = inl (
      rw (handle_message-Same socket w command bytes c).object_at (
        TlLifetime.message (as_world socket w (as_dial socket w.network c)) command bytes free
          free'))
  Step-as_tl (quiet_message w command bytes {c} free free') = inl (
      rw (quiet-Same w command bytes c).object_at (
        TlLifetime.quiet_message (as_world socket w (as_dial socket w.network c)) command bytes free
          free'))
  Step-as_tl (connecting w locks {c} free) = inl (
      rw (connect-Same socket w locks c).object_at
        (TlLifetime.connecting (as_dial socket w c) locks free))
  Step-as_tl (disconnecting locks {c} free) =
      inl (rw (disconnect-Same locks c).object_at (TlLifetime.disconnecting locks free))
  Step-as_tl (keeping_alive locks enabled {c} free) =
      inl (rw (set_keep_alive-as_tl locks enabled c) (TlLifetime.keeping_alive locks enabled free))
  Step-as_tl (timing t {c}) = inl (rw (set_timeout_config-Same t c).object_at (TlLifetime.timing t))
  Step-as_tl (sizing can_reserve size {c}) = inl (
      rw (set_max_buffer_size-Same can_reserve size c).object_at
        (TlLifetime.sizing can_reserve size))
  Step-as_tl (answering answer) = inl (TlLifetime.answering answer)
  Step-as_tl (naming domain) = inr refl
  Step-as_tl (trusting accept) = inr refl
  Step-as_tl (round w) = inl (TlLifetime.round w)
  Step-as_tl (task_ends t) = inl (TlLifetime.task_ends t)

  -- Every life of a TLS client, made of calls, ping rounds and endings of ping tasks with the lock of
  -- the task's handle free, is, but for the domain and the acceptance of certificates, a life of the
  -- plain client.
  pub Reachable-as_tl :
      {c : ClientTls socket} → Reachable c → TlLifetime.Reachable socket (as_tl socket c)
  Reachable-as_tl (born address now) = rw (new-as_tl address now) (TlLifetime.born address now)
  Reachable-as_tl (lives before step) = elim (Step-as_tl step) [
    | inl moved ↦ TlLifetime.lives (Reachable-as_tl before) moved
    | inr same ↦ rw same (Reachable-as_tl before)
  ]

  -- Of every TLS client that was made by `new`, whatever calls, ping rounds and endings of ping
  -- tasks happened to it since, as long as the lock of the task's handle was free: its timeouts are
  -- valid, the ping task has the same ones, and no ping task is alive or just the one whose handle
  -- is held.
  pub secured-IsSound : {c : ClientTls socket} → Reachable c → IsSound socket (as_tl socket c)
  secured-IsSound reached = TlLifetime.Reachable-IsSound socket (Reachable-as_tl reached)
