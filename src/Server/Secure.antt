-- ===== src/Server/Secure.antt =====
-- How src/server.rs is set up, and what it does with one accepted connection: the acceptor of
-- `set_secure`, and the connection handler that the spawned task runs.
use wagonet.Prelude.{
  ℕ, ◌≡◌, refl, Bool, true, false, Option, none, some, List, String, ◌⊎◌, inl, inr, arith,
}
use wagonet.Errors.{Error, Result, ok, err}
use wagonet.Socket.{Socket}
use wagonet.Protocol.{CommandHandler}
use wagonet.Connection.{Ending}
use wagonet.Connection.Handler
use wagonet.Connection.Handler.{
  ConnectionHandler, Happenings, Session, over_tcp, over_tls, OverTls, OverTcp, set_tls_acceptor,
  taken, serve_stream, serve_tls, serve_tcp, handshaken,
}
use wagonet.ServerTls.{ServerTls}
use wagonet.Server.{
  Outside, Server, new, adopt_acceptor, adopt_identity, set_secure,
  set_protocol_command_handler_factory, set_max_connections, set_drain_timeout, shutdown,
  shutdown_handle,
}

module _ (outside : Outside) where
  -- The configurations that the methods of a server lead to.
  pub data Configured : Server outside → Type 0 where
    made : (address : String) (size : ℕ) → Configured (new outside address size)
    secured :
        (identity : List ℕ) (password : String) {v : Server outside}
        → Configured v
        → Configured (set_secure outside identity password v).1
    provided :
        (f : outside.Factory) {v : Server outside}
        → Configured v
        → Configured (set_protocol_command_handler_factory outside f v)
    limited :
        (n : ℕ) {v : Server outside} → Configured v → Configured (set_max_connections outside n v)
    drained :
        (n : ℕ) {v : Server outside} → Configured v → Configured (set_drain_timeout outside n v)
    signalled : {v : Server outside} → Configured v → Configured (shutdown outside v)
    handled :
        (signal : Bool) {v : Server outside}
        → Configured v
        → Configured (shutdown_handle outside v signal)

  -- TLS is off and there is no acceptor, or it is on with an acceptor of an identity that was loaded.
  abbrev pub IsPaired : Bool → Option outside.Acceptor → Type 0
  IsPaired is_tls tls_acceptor =
      ((is_tls ≡ false) × (tls_acceptor ≡ none))
      ⊎ ((is_tls ≡ true)
          × ((identity : List ℕ) × (password : String) × (i : outside.Identity)
              × (a : outside.Acceptor) × (outside.from_pkcs12 identity password ≡ ok i)
              × (outside.build i ≡ ok a)
              × (tls_acceptor ≡ some a)))

  adopt_acceptor-IsPaired :
      (identity : List ℕ) (password : String) (i : outside.Identity) (r : Result ℕ outside.Acceptor)
      (v : Server outside)
      → outside.from_pkcs12 identity password ≡ ok i
      → outside.build i ≡ r
      → IsPaired v.is_tls v.tls_acceptor
      → let v' = (adopt_acceptor outside r v).1 in IsPaired v'.is_tls v'.tls_acceptor
  unfolding adopt_acceptor
  adopt_acceptor-IsPaired identity password i (ok a) v loaded built paired =
      inr (refl, (identity, password, i, a, loaded, built, refl))
  adopt_acceptor-IsPaired identity password i (err e) v loaded built paired = paired

  adopt_identity-IsPaired :
      (identity : List ℕ) (password : String) (r : Result ℕ outside.Identity) (v : Server outside)
      → outside.from_pkcs12 identity password ≡ r
      → IsPaired v.is_tls v.tls_acceptor
      → let v' = (adopt_identity outside r v).1 in IsPaired v'.is_tls v'.tls_acceptor
  unfolding adopt_identity
  adopt_identity-IsPaired identity password (ok i) v loaded paired =
      adopt_acceptor-IsPaired identity password i (outside.build i) v loaded refl paired
  adopt_identity-IsPaired identity password (err e) v loaded paired = paired

  -- However the methods of a server are called, TLS is off and there is no acceptor, or TLS is on and
  -- the acceptor is one that was built for an identity that was loaded.
  pub Configured-IsPaired : {v : Server outside} → Configured v → IsPaired v.is_tls v.tls_acceptor
  unfolding new set_secure set_protocol_command_handler_factory set_max_connections
      set_drain_timeout shutdown shutdown_handle
  Configured-IsPaired (made address size) = inl (refl, refl)
  Configured-IsPaired (secured identity password {v} before) =
      adopt_identity-IsPaired identity password (outside.from_pkcs12 identity password) v refl
        (Configured-IsPaired before)
  Configured-IsPaired (provided f before) = Configured-IsPaired before
  Configured-IsPaired (limited n before) = Configured-IsPaired before
  Configured-IsPaired (drained n before) = Configured-IsPaired before
  Configured-IsPaired (signalled before) = Configured-IsPaired before
  Configured-IsPaired (handled signal before) = Configured-IsPaired before

-- `accept` is the handshake of an acceptor on an accepted stream, and `make` runs a factory.
module _ (outside : Outside) (tcp tls_socket : Socket) (handler : CommandHandler)
    (accept : outside.Acceptor → tcp.State → Result ℕ tls_socket.State)
    (make : outside.Factory → handler.Own) where
  secure_if :
      Bool
      → Option outside.Acceptor
      → ConnectionHandler tcp tls_socket
      → ConnectionHandler tcp tls_socket
  secure_if true (some acceptor) c = set_tls_acceptor tcp tls_socket (accept acceptor) c
  secure_if true none c = c
  secure_if false acceptor c = c

  -- The task that the accept loop spawns for a stream.
  unfoldable pub serve_connection :
      Server outside
      → outside.Factory
      → Happenings tcp tls_socket handler
      → tcp.State
      → Result Error (Session tcp tls_socket handler)
  unfolding secure_if
  serve_connection v factory w stream =
      (Handler.run tcp tls_socket handler w (make factory)
        (secure_if v.is_tls v.tls_acceptor (Handler.new tcp tls_socket stream v.max_buffer_size))).0

  -- The session, where there is one, ran over TLS.
  abbrev pub RanOverTls : Result Error (Session tcp tls_socket handler) → Type 0
  RanOverTls r =
      ((x : Option Ending × OverTls tcp tls_socket handler) × (r ≡ ok (over_tls x)))
      ⊎ ((e : Error) × (r ≡ err e))

  serve_tls-RanOverTls :
      (w : Happenings tcp tls_socket handler) (own : handler.Own)
      (r : Result Error (Unit {0}) × ServerTls tls_socket)
      → RanOverTls (serve_tls tcp tls_socket handler w own r)
  unfolding serve_tls
  serve_tls-RanOverTls w own (ok u, c) = inl (_, refl)
  serve_tls-RanOverTls w own (err e, c) = inr (e, refl)

  handshaken-RanOverTls :
      (w : Happenings tcp tls_socket handler) (limit : ℕ) (own : handler.Own)
      (r : Result ℕ tls_socket.State)
      → RanOverTls (handshaken tcp tls_socket handler w limit own r)
  unfolding handshaken
  handshaken-RanOverTls w limit own (ok stream) = serve_tls-RanOverTls w own _
  handshaken-RanOverTls w limit own (err e) = inr (_, refl)

  -- A server that its methods have led to and whose TLS is on never serves a connection in the clear:
  -- for every accepted stream, the session ran over TLS, or there is none and an error.
  pub serve_connection-RanOverTls :
      (v : Server outside) (factory : outside.Factory) (w : Happenings tcp tls_socket handler)
      (stream : tcp.State)
      → Configured outside v
      → v.is_tls ≡ true
      → RanOverTls (serve_connection v factory w stream)
  unfolding serve_connection set_tls_acceptor Handler.new Handler.run taken serve_stream
  serve_connection-RanOverTls v factory w stream configured secure =
      elim (Configured-IsPaired outside configured) [
        | inl (plain, _) ↦ ground arith
        | inr (_, (_, _, _, a, _, _, held)) ↦
            rw (secure, held)
              (handshaken-RanOverTls w v.max_buffer_size (make factory) (accept a stream))
      ]
