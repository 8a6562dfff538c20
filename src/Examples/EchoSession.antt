-- ===== src/Examples/EchoSession.antt =====
-- A client of examples/framework/high_level_server.rs, from end to end: `handle_message` of
-- src/client_tl.rs with the commands `CMD_ECHO` and `CMD_UPPERCASE` of its handler.
use wagonet.Prelude.{
  ℕ, ◌+◌, ◌%◌, ◌<◌, ◌≤◌, ◌≡◌, refl, ap, ◌∙◌, ◌⊎◌, none, List, [], ◌∷◌, ◌++◌, ◌==◌, if◌then◌else◌,
  arith, length, replicate,
}
use wagonet.Errors.{ok}
use wagonet.Headers.Bytes.{IsU32}
use wagonet.Headers.Status.{ok_status}
use wagonet.Socket.{Socket}
use wagonet.Socket.Delivery.{Network}
use wagonet.ServerTl.Transfers.{Moved}
use wagonet.Protocol.{ProtocolHandler, server_tl_transport}
use wagonet.Connection.{completes, run_loop}
use wagonet.Connection.Sessions.{Request, request_bytes, IsAccepted}
use wagonet.ClientTl.{ClientTl, World}
use wagonet.Conversation.Caller.{reply_bytes, Replies, replying, silent, calls}
use wagonet.Conversation.Sessions.{Holds, plain, session}
use wagonet.Examples.Echo.{
  EchoHandler, echo_handler, run, answer, increment, cmd_echo, cmd_uppercase,
}

-- The handler behind so many requests.
unfoldable pub counted : List Request → EchoHandler → EchoHandler
counted [] h = h
counted (q ∷ qs) h =
    counted qs
      (record { requests = increment h.requests; total_requests = increment h.total_requests })

module _ (uppercase : List ℕ → List ℕ) where
  -- The reply that a user expects.
  unfoldable pub expected : Request → List ℕ
  expected q = if q.command == cmd_echo then q.payload else uppercase q.payload

  unfoldable pub all_expected : List Request → List (List ℕ)
  all_expected [] = []
  all_expected (q ∷ qs) = expected q ∷ all_expected qs

module _ (uppercase : List ℕ → List ℕ) (stats : ℕ → ℕ → List ℕ) where
  ran :
      (q : Request) (h : EchoHandler)
      → (q.command ≡ cmd_echo) ⊎ (q.command ≡ cmd_uppercase)
      → run uppercase stats q.command q.payload h ≡ (
        ok (ok_status, expected uppercase q),
        record { requests = increment h.requests; total_requests = increment h.total_requests },
      )
  unfolding run answer expected
  ran q h known = ground arith

  counted-requests :
      (qs : List Request) (h : EchoHandler)
      → h.requests < 18446744073709551616
      → (counted qs h).requests ≡ (h.requests + length qs) % 18446744073709551616
  unfolding counted
  counted-requests [] h small = omega arith
  counted-requests (q ∷ qs) h small =
      let rest =
        counted-requests qs
          (record { requests = increment h.requests; total_requests = increment h.total_requests })
          (omega arith) in
      omega (arith, rest)

  module _ (limit room : ℕ) where
    -- A request to echo or to uppercase that the server accepts, and for whose reply the client has room.
    pub record IsPlain (q : Request) : Type 0 where
      pub accepted : IsAccepted limit q
      pub known : (q.command ≡ cmd_echo) ⊎ (q.command ≡ cmd_uppercase)
      pub reply_u32 : IsU32 (length (expected uppercase q))
      pub reply_fits : length (expected uppercase q) ≤ room

    abbrev pub ArePlain : List Request → Type 0
    ArePlain [] = Unit
    ArePlain (q ∷ qs) = IsPlain q × ArePlain qs

    plain-Replies :
        (qs : List Request) (h : EchoHandler)
        → ArePlain qs
        → Replies
            (echo_handler uppercase stats)
            limit
            room
            h
            qs
            (counted qs h)
            (all_expected uppercase qs)
    unfolding counted all_expected
    plain-Replies [] h good = silent
    plain-Replies (q ∷ qs) h (good, more) =
        replying q (expected uppercase q) good.accepted good.reply_u32 good.reply_fits
          (ran q h good.known) (plain-Replies qs _ more)

    -- On a network that loses nothing, a client with keep-alive, in answer mode and with an open
    -- connection makes a call for each of a list of requests to echo or to uppercase, which the server
    -- accepts and for whose replies the client has room, and each end has still to read just what the
    -- other writes in the session. Then every call succeeds with the payload that it sent, or with that
    -- payload in upper case; the server's loop goes on with the connection open; and the handler has
    -- counted just these requests, as a 64-bit number.
    pub echo_session :
        (socket : Socket) (net : Network socket) (w : ℕ → World socket) (qs : List Request)
        (sent : List ℕ) (c : ClientTl socket)
        (p : ProtocolHandler (server_tl_transport socket) (echo_handler uppercase stats))
        → ArePlain qs
        → Holds socket net room c (reply_bytes (all_expected uppercase qs)) sent
        → p.command_handler.requests < 18446744073709551616
        → p.connection.max_buffer_size ≡ limit
        → net.pending p.connection.stream ≡ request_bytes qs
        → let served =
            run_loop
              (server_tl_transport socket)
              (echo_handler uppercase stats)
              (replicate (length qs) completes)
              p in
          ((calls (plain socket net room w) 0 qs c).0 ≡ ok (all_expected uppercase qs))
          × Holds socket net room
              (calls (plain socket net room w) 0 qs c).1
              []
              (sent ++ request_bytes qs)
          × (served.0 ≡ none)
          × (served.1.command_handler.requests
              ≡ (p.command_handler.requests + length qs) % 18446744073709551616)
          × Moved socket net p.connection served.1.connection []
              (reply_bytes (all_expected uppercase qs))
    echo_session socket net w qs sent c p good holds small at_limit at_server =
        let h = p.command_handler in
        let (all, ends, still, at_end, moved) =
          session socket net room (echo_handler uppercase stats) limit w h (counted qs h) qs
            (all_expected uppercase qs) sent c p (plain-Replies qs h good) holds refl at_limit
            at_server in
        (all, ends, still, ap (λ k. k.requests) at_end ∙ counted-requests qs h small, moved)
