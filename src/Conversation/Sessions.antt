-- ===== src/Conversation/Sessions.antt =====
-- Many exchanges of one client with one server, over TCP and over TLS: `handle_message` of
-- src/client_tl.rs and src/client_tls.rs again and again, and the loop of src/connection_handler.rs.
use wagonet.Prelude.{
  ℕ, ◌≤◌, ◌≡◌, refl, sym, ap, ◌∙◌, Bool, true, false, none, some, List, [], ◌∷◌, ◌++◌, append-nil,
  append_assoc, arith, length, replicate,
}
use wagonet.Errors.{Error, Result, ok, err}
use wagonet.Headers.{encode_response}
use wagonet.Headers.Bytes.{IsU32, as_u32}
use wagonet.Headers.Status.{status_code}
use wagonet.Socket.{Socket}
use wagonet.Socket.Delivery.{Network}
use wagonet.ServerTl.{data_len, is_none}
use wagonet.ServerTl.Transfers.{Moved}
use wagonet.ServerTl.Replies.{reply_header}
use wagonet.Protocol.{CommandHandler, ProtocolHandler, server_tl_transport}
use wagonet.Connection.{completes, run_loop}
use wagonet.Connection.Sessions.{Request, request_bytes, run_loop_serves}
use wagonet.ClientTl.{ClientTl, World, conclude, message_exchange, exchange_on, handle_message}
use wagonet.ClientTl.Locked.{Link}
use wagonet.ClientTl.Connecting.{handle_message_reuse}
use wagonet.ClientTl.Exchange.{handle_message_replies}
use wagonet.Conversation.{client_writes, server_writes}
use wagonet.Conversation.Caller.{reply_bytes, Replies, Replies-Answers, Caller, calls, calls_lem}
use wagonet.Protocol.Tls.{server_tls_transport}
use wagonet.Connection.Transports.{tls_serves}
use wagonet.ClientTls
use wagonet.ClientTls.{ClientTls}
use wagonet.ClientTls.Connecting.{as_tl, as_dial, as_world}
use wagonet.ClientTls.Calls.{handle_message-Same}
use wagonet.ClientTls.Exchange.{agrees_ok}

module _ (socket : Socket) where
  -- The settings that the calls read.
  abbrev settings : ClientTl socket → Bool × Bool × ℕ
  settings c = (c.keep_alive, c.command_has_answer, c.max_buffer_size)

  conclude-settings :
      (w : World socket) (r : Result Error (List ℕ)) (l : Link socket) (c : ClientTl socket)
      → settings (conclude socket w r l c).1 ≡ settings c
  unfolding conclude
  conclude-settings w (ok response) l c = refl
  conclude-settings w (err e) l c = refl

  handle_message-settings :
      (w : World socket) (command : ℕ) (message : List ℕ) (c : ClientTl socket)
      (stream : socket.State)
      → c.keep_alive ≡ true
      → c.stream ≡ some stream
      → settings (handle_message socket w command message c).1 ≡ settings c
  unfolding exchange_on
  handle_message-settings w command message c stream alive held =
      rw (handle_message_reuse socket w command message c stream alive held) (
        conclude-settings w
          (message_exchange socket c command message
            (record { stream = stream; buffer = c.buffer })).0
          (message_exchange socket c command message
            (record { stream = stream; buffer = c.buffer })).1
          c)

module _ (socket : Socket) (net : Network socket) (room : ℕ) where
  -- A client with keep-alive, in answer mode and with a limit of `room`, and what its open connection
  -- holds: the bytes that are still to be read, and those that were sent.
  pub record Holds (c : ClientTl socket) (rest sent : List ℕ) : Type 0 where
    pub agreed : settings socket c ≡ (true, true, room)
    pub stream : socket.State
    pub held : c.stream ≡ some stream
    pub pending_left : net.pending stream ≡ rest
    pub sent_out : net.sent stream ≡ sent

  one_reply :
      (r rest : List ℕ)
      → IsU32 (length r)
      → server_writes r ++ rest
        ≡ 1
          ∷ (encode_response (record { status = 1; data_size = length r }) [] false ++ (r ++ rest))
  unfolding server_writes reply_header data_len is_none status_code
  one_reply r rest small =
      let whole : as_u32 (length r) ≡ length r = omega arith in rw (whole, append_assoc) refl

  pub replies_tl :
      (w : World socket) (q : Request) (r rest sent : List ℕ) (c : ClientTl socket)
      → IsU32 (length r)
      → length r ≤ room
      → Holds c (server_writes r ++ rest) sent
      → ((handle_message socket w q.command q.payload c).0 ≡ ok r)
        × Holds
            (handle_message socket w q.command q.payload c).1
            rest
            (sent ++ client_writes q.command q.payload)
  unfolding client_writes
  replies_tl w q r rest sent c small fits h =
      let alive = ap (λ t. t.0) h.agreed in
      let written = client_writes q.command q.payload in
      let (done, kept) =
        handle_message_replies socket net w q.command q.payload r rest c h.stream alive h.held
          (ap (λ t. t.1) h.agreed) small (omega (arith, fits, ap (λ t. t.2) h.agreed))
          (h.pending_left ∙ one_reply r rest small) in
      (
        done,
        record {
          agreed =
              handle_message-settings socket w q.command q.payload c h.stream alive h.held
              ∙ h.agreed;
          stream = kept.after;
          held = kept.keeps;
          pending_left = kept.pending_left;
          sent_out = kept.sent_out ∙ ap (λ o. o ++ written) h.sent_out;
        },
      )

  -- A plain client, with what each of its calls meets.
  abbrev pub plain : (ℕ → World socket) → Caller
  plain w = record {
    Client = ClientTl socket;
    room = room;
    call = λ k q. handle_message socket (w k) q.command q.payload;
    Holds = Holds;
    replies = λ k q r rest sent c small. replies_tl (w k) q r rest sent c;
  }

  pub replies_tls :
      (w : ClientTls.World socket) (q : Request) (r rest sent : List ℕ) (c : ClientTls socket)
      → IsU32 (length r)
      → length r ≤ room
      → Holds (as_tl socket c) (server_writes r ++ rest) sent
      → ((ClientTls.handle_message socket w q.command q.payload c).0 ≡ ok r)
        × Holds
            (as_tl socket (ClientTls.handle_message socket w q.command q.payload c).1)
            rest
            (sent ++ client_writes q.command q.payload)
  replies_tls w q r rest sent c small fits h =
      let like = handle_message-Same socket w q.command q.payload c in
      let (done, held) =
        replies_tl (as_world socket w (as_dial socket w.network c)) q r rest sent (as_tl socket c)
          small fits h in
      (agrees_ok socket r _ _ like.result_at done, rw like.object_at held)

  -- A TLS client, with what each of its calls meets.
  abbrev pub secured : (ℕ → ClientTls.World socket) → Caller
  secured w = record {
    Client = ClientTls socket;
    room = room;
    call = λ k q. ClientTls.handle_message socket (w k) q.command q.payload;
    Holds = λ c. Holds (as_tl socket c);
    replies = λ k q r rest sent c small. replies_tls (w k) q r rest sent c;
  }

  module _ (handler : CommandHandler) (limit : ℕ) where
    -- On a network that loses nothing, a client with keep-alive, in answer mode and with an open
    -- connection makes a call for each of the requests, which the server accepts; the handler
    -- replies to each with status 1 and a payload within 32 bits and within the client's limit; and
    -- each end has still to read just what the other writes in the session. Then every call
    -- succeeds, and the replies are those that the handler gives to the requests one after the
    -- other; the connection loop serves every request and goes on; and each end has read
    -- everything, has written just what the other reads, and keeps the connection.
    pub session :
        (w : ℕ → World socket) (own own' : handler.Own) (qs : List Request) (rs : List (List ℕ))
        (sent : List ℕ) (c : ClientTl socket)
        (p : ProtocolHandler (server_tl_transport socket) handler)
        → Replies handler limit room own qs own' rs
        → Holds c (reply_bytes rs) sent
        → p.command_handler ≡ own
        → p.connection.max_buffer_size ≡ limit
        → net.pending p.connection.stream ≡ request_bytes qs
        → let served =
            run_loop (server_tl_transport socket) handler (replicate (length qs) completes) p in
          ((calls (plain w) 0 qs c).0 ≡ ok rs)
          × Holds (calls (plain w) 0 qs c).1 [] (sent ++ request_bytes qs)
          × (served.0 ≡ none)
          × (served.1.command_handler ≡ own')
          × Moved socket net p.connection served.1.connection [] (reply_bytes rs)
    session w own own' qs rs sent c p promised h at_own at_limit at_server =
        let (all, ends) =
          calls_lem (plain w) handler limit 0 own own' qs rs [] sent c promised
            (rw (append-nil (reply_bytes rs)) h) in
        let (still, at_end, moved) =
          run_loop_serves socket net handler limit qs [] (reply_bytes rs) own own' p
            (Replies-Answers handler limit room promised) at_own at_limit
            (at_server ∙ sym (append-nil (request_bytes qs))) in
        (all, ends, still, at_end, moved)

    -- On a network that loses nothing, a TLS client with keep-alive, in answer mode and with an open
    -- connection makes a call for each of the requests, which the server accepts; the handler
    -- replies to each with status 1 and a payload within 32 bits and within the client's limit; and
    -- each end has still to read just what the other writes in the session. Then every call
    -- succeeds, and the replies are those that the handler gives to the requests one after the
    -- other; the connection loop over the TLS transport serves every request and goes on; and each
    -- end has read everything, has written just what the other reads, and keeps the connection.
    pub secured_session :
        (w : ℕ → ClientTls.World socket) (own own' : handler.Own) (qs : List Request)
        (rs : List (List ℕ)) (sent : List ℕ) (c : ClientTls socket)
        (p : ProtocolHandler (server_tls_transport socket) handler)
        → Replies handler limit room own qs own' rs
        → Holds (as_tl socket c) (reply_bytes rs) sent
        → p.command_handler ≡ own
        → p.connection.max_buffer_size ≡ limit
        → net.pending p.connection.tls_stream ≡ request_bytes qs
        → let served =
            run_loop (server_tls_transport socket) handler (replicate (length qs) completes) p in
          ((calls (secured w) 0 qs c).0 ≡ ok rs)
          × Holds (as_tl socket (calls (secured w) 0 qs c).1) [] (sent ++ request_bytes qs)
          × (served.0 ≡ none)
          × (served.1.command_handler ≡ own')
          × (net.pending served.1.connection.tls_stream ≡ [])
          × (net.sent served.1.connection.tls_stream
              ≡ net.sent p.connection.tls_stream ++ reply_bytes rs)
    secured_session w own own' qs rs sent c p promised h at_own at_limit at_server =
        let (all, ends) =
          calls_lem (secured w) handler limit 0 own own' qs rs [] sent c promised
            (rw (append-nil (reply_bytes rs)) h) in
        let (still, at_end, left, out) =
          tls_serves socket socket net handler limit qs [] (reply_bytes rs) own own' p
            (Replies-Answers handler limit room promised) at_own at_limit
            (at_server ∙ sym (append-nil (request_bytes qs))) in
        (all, ends, still, at_end, left, out)
