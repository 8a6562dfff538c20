-- ===== src/Protocol/Tls.antt =====
-- `impl Transport for ServerTLS` of src/server_tls.rs, and the protocol handler over it and over
-- `ServerTL`.
use wagonet.Prelude.{ℕ, ◌≡◌, refl, ap, true, Option, none, some, List, [], not}
use wagonet.Errors.{Error, Result, ok, err}
use wagonet.Action.{Action, pure, attempt, ◌>>=◌}
use wagonet.Action.Mirroring.{Mirrors, pure-Mirrors, >>=-Mirrors, same_refl, same_eq, Mirrors-eq}
use wagonet.Headers.Status.{ResponseStatus, error, status_code}
use wagonet.Socket.{Socket}
use wagonet.ServerTls
use wagonet.ServerTls.{ServerTls}
use wagonet.ServerTls.Mirrors.{as_tl, Same, read_command-Same, receive_data-Same, send_data-Same}
use wagonet.Protocol.{
  Transport, CommandHandler, ProtocolHandler, narrow, read_command_u32, server_tl_transport,
  on_transport, on_handler, is_finish, respond, serve, handle_next,
}

unfoldable pub read_command_tls : (socket : Socket) → Action (ServerTls socket) (Option (ℕ × ℕ))
read_command_tls socket = do info ← ServerTls.read_command socket; pure (narrow info)

abbrev pub server_tls_transport : Socket → Transport
server_tls_transport socket = record {
  Connection = ServerTls socket;
  read_command = read_command_tls socket;
  receive_data = ServerTls.receive_data socket;
  send_response = ServerTls.send_data socket;
  shutdown = ServerTls.flush socket;
}

module _ (socket : Socket) (handler : CommandHandler) where
  abbrev TlHandler : Type 0
  TlHandler = ProtocolHandler (server_tl_transport socket) handler

  abbrev TlsHandler : Type 0
  TlsHandler = ProtocolHandler (server_tls_transport socket) handler

  -- The same handler over a `ServerTL`.
  abbrev pub over_tl : TlsHandler → TlHandler
  over_tl p = record { connection = as_tl socket p.connection; command_handler = p.command_handler }

  abbrev Alike : {A : Type 0} → Action TlsHandler A → Action TlHandler A → Type 0
  Alike m n = Mirrors over_tl (λ e f. e ≡ f) m n

  read_command_tls-Same : Same socket (read_command_tls socket) (read_command_u32 socket)
  unfolding read_command_tls read_command_u32
  read_command_tls-Same = >>=-Mirrors (read_command-Same socket) λ info. pure-Mirrors (narrow info)

  on_transport-Alike :
      {A : Type 0} {m : Action (ServerTls socket) A} {n : _}
      → Same socket m n
      → Alike
          (on_transport (server_tls_transport socket) handler m)
          (on_transport (server_tl_transport socket) handler n)
  on_transport-Alike same = record {
    same_result = λ p. same.same_result p.connection;
    same_object = λ p.
        ap (λ c. record { connection = c; command_handler = p.command_handler })
          (same.same_object p.connection);
  }

  on_handler-Alike :
      {A : Type 0} (m : Action handler.Own A)
      → Alike
          (on_handler (server_tls_transport socket) handler m)
          (on_handler (server_tl_transport socket) handler m)
  on_handler-Alike m = record { same_result = λ p. same_refl _; same_object = λ p. refl }

  attempt-Alike :
      {A : Type 0} {m : Action TlsHandler A} {n : Action TlHandler A}
      → Alike m n
      → Alike (attempt m) (attempt n)
  attempt-Alike same = record {
    same_result = λ p. same_eq _ _ (same.same_result p);
    same_object = λ p. same.same_object p;
  }

  respond-Alike :
      (r : Result Error (ResponseStatus × List ℕ))
      → Alike
          (respond (server_tls_transport socket) handler r)
          (respond (server_tl_transport socket) handler r)
  unfolding respond
  respond-Alike (ok (status, bytes)) =
      >>=-Mirrors (on_transport-Alike (send_data-Same socket (status_code status) (some bytes)))
        λ _. pure-Mirrors (not (is_finish status))
  respond-Alike (err e) =
      >>=-Mirrors
        (attempt-Alike (on_transport-Alike (send_data-Same socket (status_code error) (some []))))
        λ _. pure-Mirrors true

  serve-Alike :
      (info : Option (ℕ × ℕ))
      → Alike
          (serve (server_tls_transport socket) handler info)
          (serve (server_tl_transport socket) handler info)
  unfolding serve
  serve-Alike none = pure-Mirrors true
  serve-Alike (some (command, data_size)) =
      >>=-Mirrors (on_transport-Alike (receive_data-Same socket data_size)) λ received.
        >>=-Mirrors (attempt-Alike (on_handler-Alike (handler.run command received)))
          λ outcome. respond-Alike outcome

  handle_next-Alike :
      Alike
        (handle_next (server_tls_transport socket) handler)
        (handle_next (server_tl_transport socket) handler)
  unfolding handle_next
  handle_next-Alike =
      >>=-Mirrors (on_transport-Alike read_command_tls-Same) λ info. serve-Alike info

  -- Over a TLS stream the protocol handler does just what it does over a TCP stream: the same result,
  -- the same state of the command handler, and the same connection.
  pub handle_next-over_tl :
      (p : ProtocolHandler (server_tls_transport socket) handler)
      → handle_next (server_tl_transport socket) handler (over_tl p) ≡ (
        (handle_next (server_tls_transport socket) handler p).0,
        over_tl (handle_next (server_tls_transport socket) handler p).1,
      )
  handle_next-over_tl p = Mirrors-eq handle_next-Alike p
