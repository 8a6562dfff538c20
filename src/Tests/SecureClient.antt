-- ===== src/Tests/SecureClient.antt =====
-- Runs of a client over TLS.
use wagonet.Prelude.{
  ℕ, zero, suc, ◌<◌, ◌≡◌, refl, List, [], ◌∷◌, true, false, Bool, some, arith, inl,
}
use wagonet.Errors.{boxed_io, other, ok, err, tls, is_disconnect, unexpected_eof}
use wagonet.Headers.{encoded_len, decode_response}
use wagonet.ClientTls.Locked.{
  send_message, send_request_header, receive_response_header, receive_message,
}
use wagonet.Ping.{Locks}
use wagonet.Socket.Pipe.{pipe_socket}
use wagonet.ClientTl as Tl
use wagonet.ClientTl.Settings.{IsSound}
use wagonet.ClientTl.Lifetime as TlLifetime
use wagonet.ClientTls.{
  ClientTls, World, Network, Attempt, handshake_failed, refused, new, set_domain, needs_domain,
  connect, set_keep_alive, exchange_on, message_exchange, handle_message,
}
use wagonet.ClientTls.Connecting.{as_tl, as_dial, as_world, Same}
use wagonet.ClientTls.Calls.{handle_message-Same}
use wagonet.ClientTls.Lifetime.{
  born, lives, naming, keeping_alive, message, Reachable-as_tl, secured-IsSound,
}
use wagonet.ClientTls.Opening.{Fails, by_handshake, connect-Settles}
use wagonet.ClientTls.Exchange.{handle_message_undetected}
use wagonet.Tests.Streams.{sending}

abbrev pub free : Locks
free = record { should_stop_free = true; task_handle_free = true }

-- A network where the second attempt reaches a server whose handshake fails.
abbrev pub mistrusted : ℕ → ℕ → Attempt pipe_socket
mistrusted d zero = refused unexpected_eof
mistrusted d (suc n) = handshake_failed 4

abbrev pub network : Network pipe_socket
network = record { build = λ accept. ok tt; dial = λ accept domain. mistrusted }

abbrev pub world : World pipe_socket
world = record { network = network; connect_locks = free; failure_locks = free; now = 50 }

abbrev pub fresh : ClientTls pipe_socket
fresh = new pipe_socket "localhost:8443" 10

abbrev pub named : ClientTls pipe_socket
named = set_domain pipe_socket "localhost" fresh

-- A client that keeps a TLS connection on which the server has sent `bytes`, and closes it or not.
abbrev pub holding : List ℕ → Bool → ClientTls pipe_socket
holding bytes closes = record named { tls_stream = some (sending bytes closes); keep_alive = true }

abbrev replied : List ℕ
replied = 1 ∷ 1 ∷ 0 ∷ 0 ∷ 0 ∷ 2 ∷ 8 ∷ 9 ∷ 4 ∷ []

handle_message-Same_example : Same pipe_socket (handle_message pipe_socket world 7 (5 ∷ []) named) (
    Tl.handle_message pipe_socket
      (as_world pipe_socket world (as_dial pipe_socket network named))
      7
      (5 ∷ [])
      (as_tl pipe_socket named))
handle_message-Same_example = handle_message-Same pipe_socket world 7 (5 ∷ []) named

Reachable-as_tl_example : TlLifetime.Reachable pipe_socket (
    as_tl pipe_socket
      (handle_message pipe_socket world 7 (5 ∷ []) (set_keep_alive pipe_socket free true named)).1)
Reachable-as_tl_example = Reachable-as_tl pipe_socket (
    lives
      (lives (lives (born "localhost:8443" 10) (naming "localhost")) (keeping_alive free true refl))
      (message world 7 (5 ∷ []) refl refl))

secured-IsSound_example : IsSound pipe_socket (
    as_tl pipe_socket
      (handle_message pipe_socket world 7 (5 ∷ []) (set_keep_alive pipe_socket free true named)).1)
secured-IsSound_example = secured-IsSound pipe_socket (
    lives
      (lives (lives (born "localhost:8443" 10) (naming "localhost")) (keeping_alive free true refl))
      (message world 7 (5 ∷ []) refl refl))

mistrusted-Fails : (d i : ℕ) → i < 1 → Fails pipe_socket (mistrusted d i)
mistrusted-Fails d zero h = inl (unexpected_eof, refl)
mistrusted-Fails d (suc i) h = absurd (omega arith)

connect-Settles_example : connect pipe_socket network free named ≡ (err (tls 4), named)
unfolding new set_domain needs_domain
connect-Settles_example =
    connect-Settles pipe_socket network free named 1 (err (tls 4), named) refl refl (omega arith)
      (λ i h. mistrusted-Fails named.timeout_config.connect i h) (by_handshake 4)

-- The server closes the connection where the response header should come.
abbrev closing : ClientTls pipe_socket
closing = holding (1 ∷ []) true

closed_early :
    (handle_message pipe_socket world 7 (5 ∷ []) closing).0 ≡ err (other (boxed_io unexpected_eof))
unfolding handle_message pipe_socket sending new set_domain exchange_on message_exchange
    send_message send_request_header receive_response_header encoded_len decode_response
    receive_message
closed_early = refl

handle_message_undetected_example : is_disconnect (other (boxed_io unexpected_eof)) ≡ false
handle_message_undetected_example =
    handle_message_undetected pipe_socket world 7 (5 ∷ []) closing (other (boxed_io unexpected_eof))
      closed_early
