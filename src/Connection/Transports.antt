-- ===== src/Connection/Transports.antt =====
-- The loop of src/connection_handler.rs over TLS and over TCP, and whole sessions from
-- `ConnectionHandler::run` on.
use wagonet.Prelude.{
  ℕ, zero, suc, ◌≡◌, ◌<◌, refl, sym, ap, ◌∙◌, Bool, true, false, none, some, List, [], ◌∷◌, ◌++◌,
  arith, length, replicate,
}
use wagonet.Errors.{Error, Result, ok, err, is_disconnect}
use wagonet.Socket.{Socket}
use wagonet.Socket.Delivery.{Network}
use wagonet.ServerTls
use wagonet.Protocol.{CommandHandler, ProtocolHandler, server_tl_transport, handle_next}
use wagonet.Protocol.Tls.{server_tls_transport, over_tl, handle_next-over_tl}
use wagonet.Connection.{finished, ending_of, Event, completes, changed, run_loop}
use wagonet.Connection.Sessions.{Request, request_bytes, Answers, run_loop_serves}
use wagonet.Connection.Handler.{Happenings, over_tls, OverTls, new, set_tls_acceptor, run}

module _ (socket : Socket) (handler : CommandHandler) where
  event_over_tl :
      Event (server_tls_transport socket) handler → Event (server_tl_transport socket) handler
  event_over_tl completes = completes
  event_over_tl (changed signal left) = changed signal (over_tl socket handler left)

  unfoldable pub events_over_tl :
      List (Event (server_tls_transport socket) handler)
      → List (Event (server_tl_transport socket) handler)
  unfolding event_over_tl
  events_over_tl [] = []
  events_over_tl (e ∷ events) = event_over_tl e ∷ events_over_tl events

  abbrev LikeTl :
      List (Event (server_tls_transport socket) handler)
      → ProtocolHandler (server_tls_transport socket) handler
      → Type 0
  LikeTl events p =
      run_loop (server_tl_transport socket) handler (events_over_tl events)
        (over_tl socket handler p)
      ≡ (
        (run_loop (server_tls_transport socket) handler events p).0,
        over_tl socket handler (run_loop (server_tls_transport socket) handler events p).1,
      )

  -- Whatever the streams do, the loop over TLS ends as the loop over TCP does on the same events, and
  -- leaves the same connection and the same state of the command handler.
  pub run_loop-over_tl :
      (events : List (Event (server_tls_transport socket) handler))
      (p : ProtocolHandler (server_tls_transport socket) handler)
      → LikeTl events p
  unfolding run_loop events_over_tl
  run_loop-over_tl [] p = refl
  run_loop-over_tl (changed true left ∷ events) p = refl
  run_loop-over_tl (changed false left ∷ events) p = run_loop-over_tl events left
  run_loop-over_tl (completes ∷ events) p =
      go (handle_next (server_tls_transport socket) handler p).0 refl
        (run_loop-over_tl events (handle_next (server_tls_transport socket) handler p).1)
    where
      go :
          (r : Result Error Bool)
          → (handle_next (server_tls_transport socket) handler p).0 ≡ r
          → LikeTl events (handle_next (server_tls_transport socket) handler p).1
          → LikeTl (completes ∷ events) p
      go (ok true) is rest =
          rw (handle_next-over_tl socket handler p, is, run_loop)
            (ap (λ r. run_loop (server_tl_transport socket) handler (events_over_tl events) r.1)
                (handle_next-over_tl socket handler p)
              ∙ rest)
      go (ok false) is rest =
          rw (handle_next-over_tl socket handler p, is, run_loop)
            (ap (λ r. (some finished, r.1)) (handle_next-over_tl socket handler p))
      go (err x) is rest =
          rw (handle_next-over_tl socket handler p, is, run_loop)
            (ap (λ r. (some (ending_of x (is_disconnect x)), r.1))
              (handle_next-over_tl socket handler p))

module _ (tcp tls_socket : Socket) (net : Network tls_socket) (handler : CommandHandler) where
  events_of_session :
      (n : ℕ) → events_over_tl tls_socket handler (replicate n completes) ≡ replicate n completes
  unfolding events_over_tl
  events_of_session zero = refl
  events_of_session (suc n) = ap (λ es. completes ∷ es) (events_of_session n)

  -- The session over TLS that `run_loop_serves` has over TCP.
  pub tls_serves :
      (limit : ℕ) (qs : List Request) (rest out : List ℕ) (own own' : handler.Own)
      (p : ProtocolHandler (server_tls_transport tls_socket) handler)
      → Answers handler limit own qs own' out
      → p.command_handler ≡ own
      → p.connection.max_buffer_size ≡ limit
      → net.pending p.connection.tls_stream ≡ request_bytes qs ++ rest
      → let r =
          run_loop (server_tls_transport tls_socket) handler (replicate (length qs) completes) p in
        (r.0 ≡ none)
        × (r.1.command_handler ≡ own')
        × (net.pending r.1.connection.tls_stream ≡ rest)
        × (net.sent r.1.connection.tls_stream ≡ net.sent p.connection.tls_stream ++ out)
  tls_serves limit qs rest out own own' p answers at_own at_limit e =
      let like = run_loop-over_tl tls_socket handler (replicate (length qs) completes) p in
      let (still, at_end, moved) =
        run_loop_serves tls_socket net handler limit qs rest out own own'
          (over_tl tls_socket handler p) answers at_own at_limit e in
      let same =
        ap
          (λ es.
            run_loop (server_tl_transport tls_socket) handler es (over_tl tls_socket handler p))
          (sym (events_of_session (length qs)))
        ∙ like in
      (
        sym (ap (λ r. r.0) same) ∙ still,
        sym (ap (λ r. r.1.command_handler) same) ∙ at_end,
        sym (ap (λ r. net.pending r.1.connection.stream) same) ∙ moved.pending_left,
        sym (ap (λ r. net.sent r.1.connection.stream) same) ∙ moved.sent_out,
      )

  -- A new connection whose limit was granted.
  limited :
      (limit : ℕ) (can_reserve : ℕ → Bool) (stream : tls_socket.State)
      → 0 < limit
      → can_reserve limit ≡ true
      → let r =
          ServerTls.set_max_buffer_size tls_socket can_reserve limit
            (ServerTls.new tls_socket stream) in
        (r.0 ≡ ok tt) × (r.1.max_buffer_size ≡ limit) × (r.1.tls_stream ≡ stream)
  unfolding ServerTls.set_max_buffer_size ServerTls.new
  limited limit can_reserve stream pos granted = (ground arith, ground arith, ground arith)

  -- `run` gets to the loop where the handshake succeeds and the limit is granted.
  reaches_loop :
      (limit : ℕ) (own : handler.Own) (accept : tcp.State → Result ℕ tls_socket.State)
      (raw : tcp.State) (stream : tls_socket.State) (w : Happenings tcp tls_socket handler)
      → let r =
          ServerTls.set_max_buffer_size tls_socket w.can_reserve limit
            (ServerTls.new tls_socket stream) in
        accept raw ≡ ok stream
        → r.0 ≡ ok tt
        → (run tcp tls_socket handler w own
            (set_tls_acceptor tcp tls_socket accept (new tcp tls_socket raw limit))).0
          ≡ ok (
              over_tls (
                run_loop
                  (server_tls_transport tls_socket)
                  handler
                  w.on_tls
                  (record { connection = r.1; command_handler = own })))
  unfolding run set_tls_acceptor new
  reaches_loop limit own accept raw stream w accepts granted =
      rw (accepts, run) (rw (granted, run) refl)

  -- A connection handler with a TLS acceptor whose handshake succeeds, a limit that is not zero and
  -- that the allocator grants, and a client that sends requests that are accepted, each acknowledged,
  -- to a command handler that answers each of them without finishing, on a network that loses nothing:
  -- `run` serves every request over TLS, sends every reply whole and nothing else, reads just the
  -- requests, and has the connection still open behind the last one.
  pub run_serves :
      (limit : ℕ) (qs : List Request) (rest out : List ℕ) (own own' : handler.Own)
      (accept : tcp.State → Result ℕ tls_socket.State) (raw : tcp.State) (stream : tls_socket.State)
      (w : Happenings tcp tls_socket handler)
      → 0 < limit
      → w.can_reserve limit ≡ true
      → accept raw ≡ ok stream
      → w.on_tls ≡ replicate (length qs) completes
      → Answers handler limit own qs own' out
      → net.pending stream ≡ request_bytes qs ++ rest
      → (p : OverTls tcp tls_socket handler) × ((run tcp tls_socket handler w own
            (set_tls_acceptor tcp tls_socket accept (new tcp tls_socket raw limit))).0
          ≡ ok (over_tls (none, p)))
        × (p.command_handler ≡ own')
        × (net.pending p.connection.tls_stream ≡ rest)
        × (net.sent p.connection.tls_stream ≡ net.sent stream ++ out)
  run_serves limit qs rest out own own' accept raw stream w pos granted accepts at_events answers
        e =
      let r =
        ServerTls.set_max_buffer_size tls_socket w.can_reserve limit
          (ServerTls.new tls_socket stream) in
      let (granted_it, at_limit, at_stream) = limited limit w.can_reserve stream pos granted in
      let (still, at_end, left, out_sent) =
        tls_serves limit qs rest out own own' (record { connection = r.1; command_handler = own })
          answers refl at_limit (ap (λ t. net.pending t) at_stream ∙ e) in
      let loop : List _ → _ = λ es.
        run_loop (server_tls_transport tls_socket) handler es
          (record { connection = r.1; command_handler = own }) in
      let end = (loop (replicate (length qs) completes)).1 in
      (
        end,
        reaches_loop limit own accept raw stream w accepts granted_it
            ∙ ap (λ es. ok (over_tls (loop es))) at_events
            ∙ ap (λ o. ok (over_tls (o, end))) still,
        at_end,
        left,
        out_sent ∙ ap (λ t. net.sent t ++ out) at_stream,
      )
