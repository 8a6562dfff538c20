-- ===== src/Protocol.antt =====
-- src/transport.rs, src/protocol_command_handler.rs and src/protocol_handler.rs: one connection
-- served through two traits.
pub mod Exchange
pub mod Stalls
pub mod Safety
pub mod Tls
use wagonet.Prelude.{ℕ, Bool, true, false, Option, none, some, List, [], not}
use wagonet.Errors.{Error, Result, ok, err}
use wagonet.Action.{Action, pure, lift, attempt, ◌>>=◌, ◌>>◌}
use wagonet.Headers.Bytes.{as_u32}
use wagonet.Headers.Status.{ResponseStatus, finish, error, status_code}
use wagonet.Socket.{Socket}
use wagonet.ServerTl
use wagonet.ServerTl.{ServerTl}

-- The trait `Transport`.
pub record Transport : Type 1 where
  pub Connection : Type 0
  pub read_command : Action Connection (Option (ℕ × ℕ))
  pub receive_data : ℕ → Action Connection (List ℕ)
  pub send_response : ℕ → Option (List ℕ) → Action Connection (Unit {0})
  pub shutdown : Action Connection (Unit {0})

-- The trait `ProtocolCommandHandler`, which the library's user implements.
pub record CommandHandler : Type 1 where
  pub Own : Type 0
  pub run : ℕ → List ℕ → Action Own (ResponseStatus × List ℕ)

-- `sz as u32` in the result of `read_command`
unfoldable pub narrow : Option (ℕ × ℕ) → Option (ℕ × ℕ)
narrow none = none
narrow (some (command, size)) = some (command, as_u32 size)

unfoldable pub read_command_u32 : (socket : Socket) → Action (ServerTl socket) (Option (ℕ × ℕ))
unfolding narrow
read_command_u32 socket = do info ← ServerTl.read_command socket; pure (narrow info)

-- `impl Transport for ServerTL`
abbrev pub server_tl_transport : Socket → Transport
server_tl_transport socket = record {
  Connection = ServerTl socket;
  read_command = read_command_u32 socket;
  receive_data = ServerTl.receive_data socket;
  send_response = ServerTl.send_data socket;
  shutdown = ServerTl.flush socket;
}

unfoldable pub is_finish : ResponseStatus → Bool
is_finish finish = true
is_finish _ = false

module _ (transport : Transport) (handler : CommandHandler) where
  pub record ProtocolHandler : Type 0 where
    pub connection : transport.Connection
    pub command_handler : handler.Own

  module _ {A : Type 0} where
    abbrev pub on_transport : Action transport.Connection A → Action ProtocolHandler A
    on_transport m p = ((m p.connection).0, record p { connection = (m p.connection).1 })

    abbrev pub on_handler : Action handler.Own A → Action ProtocolHandler A
    on_handler m p =
        ((m p.command_handler).0, record p { command_handler = (m p.command_handler).1 })

  -- the reply to what the command handler returned
  unfoldable pub respond : Result Error (ResponseStatus × List ℕ) → Action ProtocolHandler Bool
  unfolding is_finish
  respond (ok (status, response_data)) = do
    on_transport (transport.send_response (status_code status) (some response_data))
    pure (not (is_finish status))
  respond (err e) = do
    attempt (on_transport (transport.send_response (status_code error) (some [])))
    pure true

  unfoldable pub serve : Option (ℕ × ℕ) → Action ProtocolHandler Bool
  unfolding respond
  serve none = pure true
  serve (some (command, data_size)) = do
    received ← on_transport (transport.receive_data data_size)
    outcome ← attempt (on_handler (handler.run command received))
    respond outcome

  -- One request and its response. `true` keeps the connection open.
  unfoldable pub handle_next : Action ProtocolHandler Bool
  handle_next = do info ← on_transport transport.read_command; serve info
