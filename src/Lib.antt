-- ===== src/Lib.antt =====
-- Wagonet: a request and response protocol over TCP, with keep-alive pings. This library models the
-- Rust crate of this repository, src/*.rs, and the servers of examples/.
--
-- The parts, and where they are modelled:
--   Errors             src/lib.rs: `Error`, `is_disconnect`, `Result`
--   Action             methods on `&mut self` that may fail, as functions of the object's state
--   Action.Keeping     what an action makes of the object, whatever its result
--   Action.Mirroring   when a method of one type does what a method of another type does
--   Headers            src/request_header.rs and src/response_header.rs: `encode`, `decode`
--   Headers.Status     src/protocol_structs.rs: command and status codes
--   Timeouts           src/timeout_config.rs: `validate`, `with_ping_interval`
--   Vec                the byte buffer of an endpoint, with its capacity
--   Socket             what the endpoints use of tokio, as a parameter
--   Socket.Reading     src/common.rs: `read_exact_or_closed`
--   ServerTl           src/server_tl.rs: `ServerTL`, one accepted connection
--   ServerTls          src/server_tls.rs: `ServerTLS`, the same over a TLS stream
--   Protocol           src/transport.rs, src/protocol_command_handler.rs, src/protocol_handler.rs
--   Protocol.Tls       the trait `Transport` of src/server_tls.rs
--   Connection         src/connection_handler.rs: the loop that serves a connection
--   Connection.Handler src/connection_handler.rs: `ConnectionHandler`, with either transport
--   Server             src/server.rs: the settings, the accept loop and the drain
--   Server.Secure      src/server.rs: the identity and acceptor, and the task of one connection
--   Ping               src/ping.rs: the ping task and the ping exchange
--   ClientTl           src/client_tl.rs: `ClientTL`
--   ClientTl.Locked    the functions of src/client_tl.rs that work on the locked stream
--   Interleaving       src/client_tl.rs and src/ping.rs: the client and its ping task, step by step
--   ClientTls          src/client_tls.rs: `ClientTLS`
--   ClientTls.Locked   the functions of src/client_tls.rs that work on the locked stream
--   Conversation       one exchange of a client and a server, seen from both ends
--   Conversation.Caller     what a client is to a user who makes many calls
--   Conversation.Sessions   many exchanges of one client with one server, over TCP and over TLS
--   Conversation.Turns      an exchange in which each end hears only what the other has written
--   Conversation.Pings      the pings of an idle client, answered by a server
--   Examples.Serving   the servers of examples/transport/, which serve a connection by hand
--   Examples.Echo      examples/framework/high_level_server.rs: `EchoHandler`
--   Examples.Greeter   examples/prost/server.rs: `GreeterHandler`
--   Examples.EchoSession    a client of `EchoHandler`, from end to end
--   Prelude            names, tests and lists that all parts share
--   Tests              the results applied to concrete inputs
--
-- How they interact: the client's `handle_message` sends a request header, waits for a one-byte
-- acknowledgement, sends the payload, reads the response header, acknowledges it and reads the
-- response. On the server, `handle_next` takes the same steps through the trait `Transport`, runs
-- the command handler of the library's user, and is called in a loop by the connection handler,
-- which `Server` spawns for each connection. The client's ping task shares the stream and
-- `PingState` with the client.
--
-- State and operations: each struct is a record with the source's fields; a method on `&mut self`
-- is an `Action`, a function from the record to a result and the record that it leaves, also beside
-- an error. A byte is a natural number below 256; a size is a natural number, and each `as u32` and
-- `as u8` is written out. A `Duration` is its number of nanoseconds.
--
-- tokio is not part of the repository. `Socket` is a record of the operations that the code calls,
-- each with the timeout that it runs under; `Socket.Delivery.Network` states, as named hypotheses,
-- what tokio documents of them on a stream on which no error occurs, and `Socket.Delivery.Inlet` how
-- bytes of the peer come in. `Socket.Pipe` is a concrete socket for which these hypotheses are
-- proved. The allocator's answer to `try_reserve`, the outcome of each attempt to connect, the
-- outcome of each `try_lock`, and the clock are parameters as well.
--
-- Bounds and fuel: `read_exact_or_closed` runs on fuel, as much as the buffer has bytes, since each
-- round fills at least one; with more fuel it does the same. The connect loop runs on the number of
-- tries that are left. The accept loop and the connection loop run on the list of the rounds that
-- happen, and the loops of the examples on the number of rounds that they may take; one round for
-- each request and one for the ping behind them are enough. Nothing else recurses but on lists and
-- on the number of greetings in examples/prost/server.rs.
--
-- TLS: a TLS stream is a `Socket`, as a TCP stream is. What native-tls decides is a parameter:
-- whether an identity loads, whether an acceptor or a connector is built, and how each handshake
-- ends; its errors are opaque numbers. src/server_tls.rs and src/client_tls.rs repeat the code for
-- TCP; each has its own definitions, and `ServerTls.Mirrors`, `ClientTls.Mirrors`,
-- `ClientTls.Connecting` and `ClientTls.Calls` set them beside those for TCP.
--
-- Concurrency: `ClientTl` and `Ping` let a call of the client and a round of the ping task run to
-- its end; what each is handed when it asks for a lock is then a parameter. `Interleaving` models
-- the two as processes whose steps come in any order, with the locks that they wait for; a stream
-- is known there by the answers to pings that are still to come on it, and `Interleaving.Views`
-- shows what a `ClientTl` is as such a state. A future that is dropped before its end, and the
-- steps of a task between its abort and its next `await`, are left out.
--
-- Not modelled: the inside of native-tls; TCP keep-alive options of a socket; log lines; of the
-- examples, the clients and the setting up; the tests. What the examples use of prost and
-- `format!`, and the conversions of text, are parameters. A counter of 64 bits wraps around, as in
-- a build without overflow checks.
pub mod Prelude
pub mod Errors
pub mod Examples
pub mod Action
pub mod Headers
pub mod Interleaving
pub mod Timeouts
pub mod Vec
pub mod Socket
pub mod ServerTl
pub mod ServerTls
pub mod Protocol
pub mod Connection
pub mod Server
pub mod Ping
pub mod ClientTl
pub mod ClientTls
pub mod Conversation
pub mod Tests
