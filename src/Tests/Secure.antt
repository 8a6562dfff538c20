-- ===== src/Tests/Secure.antt =====
-- Runs of a server over TLS. The handshake of these runs hands the stream on as it is.
use wagonet.Prelude.{ℕ, ◌≡◌, refl, List, [], ◌∷◌, ◌++◌, true, false, none, arith}
use wagonet.Errors.{Result, ok}
use wagonet.Headers.Status.{ok_status}
use wagonet.Timeouts.{default_timeout_config}
use wagonet.Socket.Pipe.{pipe_socket, pipe_network}
use wagonet.ServerTls.{ServerTls}
use wagonet.Protocol.{ProtocolHandler, server_tl_transport, handle_next, is_finish}
use wagonet.Protocol.Tls.{server_tls_transport, over_tl, handle_next-over_tl}
use wagonet.Connection.{completes}
use wagonet.Connection.Handler
use wagonet.Connection.Handler.{Happenings, OverTls, over_tls, set_tls_acceptor}
use wagonet.Connection.Sessions.{request_bytes, nothing, answer}
use wagonet.Connection.Transports.{run_serves}
use wagonet.Server.{Server, new, set_secure}
use wagonet.Server.Secure.{made, secured, serve_connection, RanOverTls, serve_connection-RanOverTls}
use wagonet.Tests.Streams.{sending}
use wagonet.Tests.Server.{echo, two_requests, request_for, accepted, reply_bytes, outside}

unfoldable pub secure_on : List ℕ → ServerTls pipe_socket
secure_on bytes = record {
  tls_stream = sending bytes false;
  buffer = record { items = []; capacity = 100 };
  max_buffer_size = 100;
  timeout_config = default_timeout_config;
}

abbrev pub secure_handler : List ℕ → ProtocolHandler (server_tls_transport pipe_socket) echo
secure_handler bytes = record { connection = secure_on bytes; command_handler = 0 }

handle_next-over_tl_example :
    let p = secure_handler (0 ∷ 0 ∷ 0 ∷ 7 ∷ 0 ∷ 0 ∷ 0 ∷ 1 ∷ 5 ∷ 1 ∷ []) in
    handle_next (server_tl_transport pipe_socket) echo (over_tl pipe_socket echo p) ≡ (
      (handle_next (server_tls_transport pipe_socket) echo p).0,
      over_tl pipe_socket echo (handle_next (server_tls_transport pipe_socket) echo p).1,
    )
handle_next-over_tl_example =
    handle_next-over_tl pipe_socket echo
      (secure_handler (0 ∷ 0 ∷ 0 ∷ 7 ∷ 0 ∷ 0 ∷ 0 ∷ 1 ∷ 5 ∷ 1 ∷ []))

abbrev shaken : pipe_socket.State → Result ℕ pipe_socket.State
shaken stream = ok stream

abbrev two_rounds : Happenings pipe_socket pipe_socket echo
two_rounds = record { can_reserve = λ n. true; on_tcp = []; on_tls = completes ∷ completes ∷ [] }

abbrev wanted : pipe_socket.State
wanted = sending (request_bytes two_requests ++ 9 ∷ []) false

run_serves_example :
    (p : OverTls pipe_socket pipe_socket echo) × ((Handler.run pipe_socket pipe_socket echo
        two_rounds 0
        (set_tls_acceptor pipe_socket pipe_socket shaken
          (Handler.new pipe_socket pipe_socket wanted 100))).0
      ≡ ok (over_tls (none, p)))
    × (p.command_handler ≡ 2)
    × (pipe_network.pending p.connection.tls_stream ≡ 9 ∷ [])
    × (pipe_network.sent p.connection.tls_stream
        ≡ pipe_network.sent wanted ++ (reply_bytes (5 ∷ 6 ∷ []) ++ (reply_bytes [] ++ [])))
unfolding pipe_socket pipe_network sending
run_serves_example =
    run_serves pipe_socket pipe_socket pipe_network echo 100 two_requests (9 ∷ [])
      (reply_bytes (5 ∷ 6 ∷ []) ++ (reply_bytes [] ++ [])) 0 2 shaken wanted wanted two_rounds
      (omega arith) refl refl refl
      (answer (request_for (5 ∷ 6 ∷ [])) ok_status (5 ∷ 6 ∷ [])
        (accepted (5 ∷ 6 ∷ []) (omega arith)) (unfold is_finish in refl) refl
        (answer (request_for []) ok_status [] (accepted [] (omega arith)) (unfold is_finish in refl)
          refl nothing))
      refl

abbrev fresh : Server outside
fresh = new outside "localhost:8443" 100

abbrev guarded : Server outside
guarded = (set_secure outside (1 ∷ []) "password" fresh).1

abbrev shakes : ℕ → pipe_socket.State → Result ℕ pipe_socket.State
shakes acceptor stream = ok stream

serve_connection-RanOverTls_example :
    RanOverTls outside pipe_socket pipe_socket echo shakes
      (λ n. n)
      (serve_connection outside pipe_socket pipe_socket echo shakes
        (λ n. n)
        guarded
        0
        two_rounds
        wanted)
unfolding set_secure new
serve_connection-RanOverTls_example =
    serve_connection-RanOverTls outside pipe_socket pipe_socket echo shakes (λ n. n) guarded 0
      two_rounds wanted (secured (1 ∷ []) "password" (made "localhost:8443" 100)) refl
