-- ===== src/Connection/Handler.antt =====
-- src/connection_handler.rs: `ConnectionHandler` around the loop. The peer's address, which only log
-- lines show, is left out; the shutdown signal is in the events of the loop.
use wagonet.Prelude.{ℕ, Bool, Option, none, some, List}
use wagonet.Errors.{Error, Result, ok, err, tls, not_connected}
use wagonet.Action.{Action}
use wagonet.Socket.{Socket}
use wagonet.ServerTl
use wagonet.ServerTl.{ServerTl}
use wagonet.ServerTls
use wagonet.ServerTls.{ServerTls}
use wagonet.Protocol.{CommandHandler, ProtocolHandler, server_tl_transport}
use wagonet.Protocol.Tls.{server_tls_transport}
use wagonet.Connection.{Ending, Event, run_loop}

-- `tcp` is the accepted stream, and `tls` the stream behind a handshake on it. An acceptor is known
-- by what its handshake makes of a stream.
module _ (tcp tls_socket : Socket) where
  pub record ConnectionHandler : Type 0 where
    pub stream : Option tcp.State
    pub tls_acceptor : Option (tcp.State → Result ℕ tls_socket.State)
    pub max_buffer_size : ℕ

  unfoldable pub new : tcp.State → ℕ → ConnectionHandler
  new stream max_buffer_size = record {
    stream = some stream;
    tls_acceptor = none;
    max_buffer_size = max_buffer_size;
  }

  unfoldable pub set_tls_acceptor :
      (tcp.State → Result ℕ tls_socket.State) → ConnectionHandler → ConnectionHandler
  set_tls_acceptor acceptor c = record c { tls_acceptor = some acceptor }

  module _ (handler : CommandHandler) where
    abbrev pub OverTcp : Type 0
    OverTcp = ProtocolHandler (server_tl_transport tcp) handler

    abbrev pub OverTls : Type 0
    OverTls = ProtocolHandler (server_tls_transport tls_socket) handler

    -- What happens to the connection, whichever transport it runs on.
    pub record Happenings : Type 0 where
      pub can_reserve : ℕ → Bool
      pub on_tcp : List (Event (server_tl_transport tcp) handler)
      pub on_tls : List (Event (server_tls_transport tls_socket) handler)

    -- The loop that was run, and how it left the connection.
    pub data Session : Type 0 where
      over_tcp : Option Ending × OverTcp → Session
      over_tls : Option Ending × OverTls → Session

    unfoldable pub serve_tcp :
        Happenings → handler.Own → Result Error (Unit {0}) × ServerTl tcp → Result Error Session
    serve_tcp w own (ok u, connection) = ok (
        over_tcp (
          run_loop (server_tl_transport tcp) handler w.on_tcp
            (record { connection = connection; command_handler = own })))
    serve_tcp w own (err e, connection) = err e

    unfoldable pub serve_tls :
        Happenings
        → handler.Own
        → Result Error (Unit {0}) × ServerTls tls_socket
        → Result Error Session
    serve_tls w own (ok u, connection) = ok (
        over_tls (
          run_loop (server_tls_transport tls_socket) handler w.on_tls
            (record { connection = connection; command_handler = own })))
    serve_tls w own (err e, connection) = err e

    unfoldable pub handshaken :
        Happenings → ℕ → handler.Own → Result ℕ tls_socket.State → Result Error Session
    unfolding serve_tls
    handshaken w limit own (ok stream) = serve_tls w own (
        ServerTls.set_max_buffer_size tls_socket w.can_reserve limit
          (ServerTls.new tls_socket stream))
    handshaken w limit own (err e) = err (tls e)

    unfoldable pub serve_stream :
        Happenings
        → ℕ
        → handler.Own
        → Option (tcp.State → Result ℕ tls_socket.State)
        → tcp.State
        → Result Error Session
    unfolding serve_tcp handshaken
    serve_stream w limit own none stream =
        serve_tcp w own
          (ServerTl.set_max_buffer_size tcp w.can_reserve limit (ServerTl.new tcp stream))
    serve_stream w limit own (some accept) stream = handshaken w limit own (accept stream)

    unfoldable pub taken :
        Happenings → handler.Own → ConnectionHandler → Option tcp.State → Result Error Session
    unfolding serve_stream
    taken w own c none = err not_connected
    taken w own c (some stream) = serve_stream w c.max_buffer_size own c.tls_acceptor stream

    -- `self.stream.take()` leaves no stream for another `run`. The source returns `Ok(())` behind the
    -- loop; the session says what the loop did.
    unfoldable pub run : Happenings → handler.Own → Action ConnectionHandler Session
    unfolding taken
    run w own c = (taken w own c c.stream, record c { stream = none })
