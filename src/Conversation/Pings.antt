-- ===== src/Conversation/Pings.antt =====
-- The ping task of src/ping.rs and the server's loop body of src/protocol_handler.rs on a connection
-- on which no call is made: each end is handed what the other has just written.
use wagonet.Prelude.{
  ℕ, zero, suc, ◌-◌, ◌≤◌, ◌≡◌, refl, sym, ap, ◌∙◌, true, false, Option, none, some, List, [], ◌∷◌,
  ◌++◌, append-nil, append_assoc, length, replicate,
}
use wagonet.Socket.{Socket}
use wagonet.Socket.Delivery.{Network, Inlet}
use wagonet.ServerTl.Transfers.{Moved, Moved-trans}
use wagonet.Protocol.{CommandHandler, ProtocolHandler, server_tl_transport, handle_next}
use wagonet.Protocol.Exchange.{handle_next_ping}
use wagonet.Conversation.Hearing.{written, written_lem, hearing}
use wagonet.Ping.{PingState, Wakeup, ping_round, send_ping_request, exchange_ping}
use wagonet.Ping.Tasks.{ping_round_answered}
use wagonet.Ping.Replies.{ping_frame, send_ping_request_lem, exchange_ping_lem}

-- Wake-ups that find no request in flight, each no earlier than the interval behind the one before.
abbrev pub Due : ℕ → ℕ → List Wakeup → Type 0
Due interval last [] = Unit {0}
Due interval last (w ∷ ws) =
    (w.in_flight_free ≡ true) × (interval ≤ w.now - last) × Due interval w.now ws

abbrev pub last_wakeup : ℕ → List Wakeup → ℕ
last_wakeup last [] = last
last_wakeup last (w ∷ ws) = last_wakeup w.now ws

-- As many ping requests.
abbrev pub ping_frames : ℕ → List ℕ
ping_frames zero = []
ping_frames (suc n) = ping_frame ++ ping_frames n

module _ (socket : Socket) (net : Network socket) (inlet : Inlet socket net) where
  module _ (handler : CommandHandler) where
    abbrev Handler : Type 0
    Handler = ProtocolHandler (server_tl_transport socket) handler

    -- The server behind the request that a ping on `s` writes.
    unfoldable pub served : socket.State → Handler → Handler
    unfolding hearing
    served s h =
        (handle_next (server_tl_transport socket) handler (
          hearing socket net inlet handler (written socket net s (send_ping_request socket s).1)
            h)).1

    -- Rounds of the ping task, one for each wake-up: the server is handed what the round's request
    -- writes, and the round is handed what the server writes to that.
    unfoldable pub ping_rounds :
        List Wakeup
        → PingState
        → Option socket.State
        → Handler
        → PingState × Option socket.State × Handler
    unfolding served
    ping_rounds [] p stream h = (p, stream, h)
    ping_rounds (w ∷ ws) p none h = (p, none, h)
    ping_rounds (w ∷ ws) p (some s) h =
        let h' = served s h in
        let heard = inlet.arrive (written socket net h.connection.stream h'.connection.stream) s in
        let r = ping_round socket w p (some heard) in ping_rounds ws r.1 r.2 h'

    served_lem :
        (s : socket.State) (h : Handler)
        → net.pending h.connection.stream ≡ []
        → ((served s h).command_handler ≡ h.command_handler)
          × Moved socket net h.connection (served s h).connection [] (1 ∷ [])
    unfolding served
    served_lem s h idle =
        let request = written socket net s (send_ping_request socket s).1 in
        let stream = h.connection.stream in
        let asked =
          written_lem socket net s (send_ping_request socket s).1 ping_frame
            (send_ping_request_lem socket net s).2 in
        let comes =
          inlet.arrive_pending request stream
          ∙ ap (λ l. l ++ request) idle
          ∙ asked
          ∙ sym (append-nil ping_frame) in
        let (_, same, moved) =
          handle_next_ping socket net handler []
            (unfold hearing in hearing socket net inlet handler request h) comes in
        (
          same,
          record {
            pending_left = moved.pending_left;
            sent_out = moved.sent_out ∙ ap (λ l. l ++ 1 ∷ []) (inlet.arrive_sent request stream);
            same_limit = moved.same_limit;
            same_config = moved.same_config;
          },
        )

    -- On a network that loses nothing, for a client and a server that have nothing to read on their
    -- open connection, a ping task that is not told to stop, and any number of wake-ups, each no
    -- earlier than the interval behind the activity before it and with no request in flight, where
    -- each round hears just what the server writes to the request of that round: every ping is
    -- answered; the client keeps the connection, its task is not told to stop, and the last wake-up
    -- is the last activity; the client has written one ping header and the server the one byte 1
    -- for each; both have nothing left to read; and the command handler has seen none of it.
    pub ping_rounds_kept :
        (ws : List Wakeup) (p : PingState) (s : socket.State) (h : Handler)
        → p.should_stop ≡ false
        → Due p.config.interval p.last_activity ws
        → net.pending s ≡ []
        → net.is_closed s ≡ false
        → net.pending h.connection.stream ≡ []
        → let r = ping_rounds ws p (some s) h in
          (r.0 ≡ record p { last_activity = last_wakeup p.last_activity ws })
          × ((s' : socket.State) × (r.1 ≡ some s')
              × (net.pending s' ≡ [])
              × (net.sent s' ≡ net.sent s ++ ping_frames (length ws))
              × (net.is_closed s' ≡ false))
          × (r.2.command_handler ≡ h.command_handler)
          × Moved socket net h.connection r.2.connection [] (replicate (length ws) 1)
    unfolding ping_rounds
    ping_rounds_kept [] p s h told due idle silent quiet = (
      refl,
      (s, refl, idle, sym (append-nil _), silent),
      refl,
      record {
        pending_left = quiet;
        sent_out = sym (append-nil _);
        same_limit = refl;
        same_config = refl;
      },
    )
    ping_rounds_kept (w ∷ ws) p s h told (free, late, due) idle silent quiet =
        let (same, moved) = served_lem s h quiet in
        let h' = served s h in
        let answer = written socket net h.connection.stream h'.connection.stream in
        let heard = inlet.arrive answer s in
        let answered =
          inlet.arrive_pending answer s
          ∙ ap (λ l. l ++ answer) idle
          ∙ written_lem socket net h.connection.stream h'.connection.stream (1 ∷ [])
              moved.sent_out in
        let open_on = inlet.arrive_open answer s ∙ silent in
        let d = p.timeout_config.read_header in
        let done = exchange_ping_lem socket net d heard answered open_on in
        let s1 = (exchange_ping socket d heard).1 in
        let (state, (s', held, left, out, open_still), seen, onward) =
          ping_rounds_kept ws (record p { last_activity = w.now }) s1 h' told due done.1 done.3
            moved.pending_left in
        let round = ping_round_answered socket w p net heard told late free answered open_on in
        rw (round, ping_rounds)
          (
            state,
            (
              s',
              held,
              left,
              out
                  ∙ ap (λ l. l ++ ping_frames (length ws))
                      (done.2 ∙ ap (λ l. l ++ ping_frame) (inlet.arrive_sent answer s))
                  ∙ append_assoc (net.sent s) ping_frame (ping_frames (length ws)),
              open_still,
            ),
            seen ∙ same,
            Moved-trans socket net [] [] (1 ∷ []) (replicate (length ws) 1) moved onward,
          )
