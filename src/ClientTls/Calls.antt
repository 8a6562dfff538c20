-- ===== src/ClientTls/Calls.antt =====
-- `handle_message` of src/client_tls.rs beside that of src/client_tl.rs, on the network that stands
-- behind the TLS handshake.
use wagonet.Prelude.{ℕ, refl, Bool, true, false, not, ◌||◌, Option, none, some, List}
use wagonet.Errors.{Error, Boxed, Result, ok, err}
use wagonet.Action.{◌>>=◌, gets}
use wagonet.Action.Mirroring.{Mirrors, proceed-Mirrors, mirrors_at, >>=-Mirrors, gets-Mirrors}
use wagonet.Socket.{Socket}
use wagonet.ClientTl as Tl
use wagonet.ClientTl.{ClientTl}
use wagonet.ClientTl.Locked.{Link}
use wagonet.ClientTls as Tls
use wagonet.ClientTls.{
  ClientTls, Network, Attempt, connected, handshake_failed, refused, attempt_elapsed, total_elapsed,
  needs_domain, unbox,
}
use wagonet.ClientTls.Mirrors.{Agree, send_message-Alike, receive_message-Alike}
use wagonet.ClientTls.Connecting.{
  as_tl, as_dial, as_world, Same, both_fail, is_none-same, connect-Same,
}

module _ (socket : Socket) where
  message_exchange-Alike :
      (c : ClientTls socket) (command : ℕ) (message : List ℕ)
      → Mirrors
          (λ l. l)
          (λ e f. Unit {0})
          (Tls.message_exchange socket c command message)
          (Tl.message_exchange socket (as_tl socket c) command message)
  unfolding Tls.message_exchange Tl.message_exchange
  message_exchange-Alike c command message =
      >>=-Mirrors
        (send_message-Alike socket c.timeout_config c.command_has_answer c.max_buffer_size command
          message)
        λ _. receive_message-Alike socket c.timeout_config c.command_has_answer c.max_buffer_size

  conclude-Same :
      (w : Tls.World socket) (dial : ℕ → ℕ → Tl.Attempt socket) (link : Link socket)
      (c : ClientTls socket) (r : Result Boxed (List ℕ)) (r' : Result Error (List ℕ))
      → Agree r r'
      → Same socket
          (Tls.conclude socket w (unbox r) link c)
          (Tl.conclude socket (as_world socket w dial) r' link (as_tl socket c))
  unfolding Tls.conclude Tl.conclude unbox
  conclude-Same w dial link c (ok a) (ok b) e = record { result_at = e; object_at = refl }
  conclude-Same w dial link c (err x) (err y) e = record { result_at = tt; object_at = refl }
  conclude-Same w dial link c (ok a) (err y) e = absurd e
  conclude-Same w dial link c (err x) (ok b) e = absurd e

  module _ (w : Tls.World socket) (command : ℕ) (message : List ℕ) where
    exchange_on-Same :
        (dial : ℕ → ℕ → Tl.Attempt socket) (s : Option socket.State) (c : ClientTls socket)
        → Same socket
            (Tls.exchange_on socket w command message s c)
            (Tl.exchange_on socket (as_world socket w dial) command message s (as_tl socket c))
    unfolding Tls.exchange_on Tl.exchange_on
    exchange_on-Same dial none c = both_fail socket _ _ c
    exchange_on-Same dial (some s) c =
        let like =
          mirrors_at (message_exchange-Alike c command message)
            (record { stream = s; buffer = c.buffer }) in
        rw like.object_at (conclude-Same w dial _ c _ _ like.result_at)

    exchange-Mirrors :
        (dial : ℕ → ℕ → Tl.Attempt socket)
        → Mirrors
            (as_tl socket)
            (λ e f. Unit {0})
            (do stream ← gets (λ c. c.tls_stream); Tls.exchange_on socket w command message stream)
            (do
              stream ← gets (λ c. c.stream)
              Tl.exchange_on socket (as_world socket w dial) command message stream)
    exchange-Mirrors dial =
        >>=-Mirrors {g = Tls.exchange_on socket w command message}
          {h = Tl.exchange_on socket (as_world socket w dial) command message}
          (gets-Mirrors (λ c. c.tls_stream) (λ c. c.stream) (λ c. refl))
          λ stream. record {
            same_result = λ c. (exchange_on-Same dial stream c).result_at;
            same_object = λ c. (exchange_on-Same dial stream c).object_at;
          }

    connect_if-Same :
        (needed : Bool) (c : ClientTls socket)
        → Same socket (Tls.connect_if socket needed w c) (
            Tl.connect_if socket needed
              (as_world socket w (as_dial socket w.network c))
              (as_tl socket c))
    unfolding Tls.connect_if Tl.connect_if
    connect_if-Same true c = connect-Same socket w.network w.connect_locks c
    connect_if-Same false c = record { result_at = refl; object_at = refl }

    -- A call of `handle_message` over TLS and the call of the plain client on the network that it
    -- sees, where a first attempt that the domain, the TLS library or the handshake stops ends the
    -- call: both leave the same connection, buffer, settings and ping state, and both succeed with
    -- the same response, or both fail.
    pub handle_message-Same :
        (c : ClientTls socket)
        → Same socket (Tls.handle_message socket w command message c) (
            Tl.handle_message socket
              (as_world socket w (as_dial socket w.network c))
              command
              message
              (as_tl socket c))
    unfolding Tls.handle_message Tl.handle_message
    handle_message-Same c =
        let dial = as_dial socket w.network c in
        let connected = connect_if-Same (not c.keep_alive || Tl.is_none socket c.tls_stream) c in
        let both =
          proceed-Mirrors _ _ (λ u. exchange-Mirrors dial) _ _ _ _ connected.result_at
            connected.object_at in
        rw (is_none-same socket c.tls_stream) (record { result_at = both.0; object_at = both.1 })
