-- ===== src/ClientTl/Exchange.antt =====
-- A whole exchange of the client, and the same exchange seen from both ends.
use wagonet.Prelude.{
  ℕ, ◌≤◌, ◌≡◌, ◌≢◌, refl, ◌∙◌, true, false, none, some, List, [], ◌∷◌, ◌++◌, arith, length,
}
use wagonet.Errors.{Error, ok, err, timeout, text, response_error}
use wagonet.Headers.Bytes.{IsU32, u32_to_be_bytes}
use wagonet.Headers.{ResponseHeader, encode_request, encode_response, encoded_len}
use wagonet.Ping.{touch_activity, stop_ping_task}
use wagonet.Socket.{Socket}
use wagonet.Socket.Delivery.{Network}
use wagonet.ClientTl.Locked.{Link, send_message, receive_message}
use wagonet.ClientTl.Transfers.{Passed, Passed-trans, receive_header_silent}
use wagonet.ClientTl.Messages.{
  request_header, send_message_accepted, send_message_rejected, receive_message_ok,
  receive_message_status, receive_message_unanswered,
}
use wagonet.ClientTl.Connecting.{handle_message_reuse}
use wagonet.ClientTl.{ClientTl, World, message_exchange, exchange_on, handle_message}

module _ (socket : Socket) (net : Network socket) where
  -- The client after a call on the stream `stream` that read all but `rest` and wrote `out`: it
  -- keeps the connection, and has noted the time.
  pub record Kept (now : ℕ) (stream : socket.State) (c : ClientTl socket) (rest out : List ℕ)
      : Type 0 where
    pub after : socket.State
    pub keeps : c.stream ≡ some after
    pub pending_left : net.pending after ≡ rest
    pub sent_out : net.sent after ≡ net.sent stream ++ out
    pub touched : c.ping_state.last_activity ≡ now

  -- The client after a call that failed: the connection is gone, and the ping task told to stop.
  pub record Dropped (w : World socket) (c c' : ClientTl socket) : Type 0 where
    pub gone : c'.stream ≡ none
    pub stopped : c'.ping_state ≡ stop_ping_task w.failure_locks c.ping_state

  message_exchange_ok :
      (c : ClientTl socket) (command : ℕ) (message reply rest : List ℕ) (l : Link socket)
      → c.command_has_answer ≡ true
      → IsU32 (length reply)
      → length reply ≤ c.max_buffer_size
      → net.pending l.stream
        ≡ 1
          ∷ (encode_response (record { status = 1; data_size = length reply }) [] false
              ++ (reply ++ rest))
      → ((message_exchange socket c command message l).0 ≡ ok reply)
        × Passed socket net l
            (message_exchange socket c command message l).1
            rest
            ((encode_request (request_header command message) [] ++ message) ++ 1 ∷ [])
  unfolding message_exchange
  message_exchange_ok c command message reply rest l answers hu fits e =
      let t = c.timeout_config in
      let max = c.max_buffer_size in
      let tail =
        encode_response (record { status = 1; data_size = length reply }) [] false
        ++ (reply ++ rest) in
      let sent = send_message_accepted socket net t true max command message tail l e in
      let m = (send_message socket t true max command message l).1 in
      let got = receive_message_ok socket net t max reply rest m hu fits sent.1.pending_left in
      rw answers (
        rw sent.0 (
          got.0,
          Passed-trans socket net tail rest
              (encode_request (request_header command message) [] ++ message) (1 ∷ []) sent.1 got.1,
        ))

  exchange_on_ok :
      (w : World socket) (command : ℕ) (message : List ℕ) (stream : socket.State)
      → (c : ClientTl socket) (reply rest out : List ℕ)
      → let l : Link socket = record { stream = stream; buffer = c.buffer } in
        ((message_exchange socket c command message l).0 ≡ ok reply)
        → Passed socket net l (message_exchange socket c command message l).1 rest out
        → ((exchange_on socket w command message (some stream) c).0 ≡ ok reply)
          × Kept w.now stream (exchange_on socket w command message (some stream) c).1 rest out
  unfolding exchange_on touch_activity
  exchange_on_ok w command message stream c reply rest out done passed =
      let l : Link socket = record { stream = stream; buffer = c.buffer } in
      rw (done, exchange_on)
        (
          refl,
          record {
            after = (message_exchange socket c command message l).1.stream;
            keeps = refl;
            pending_left = passed.pending_left;
            sent_out = passed.sent_out;
            touched = refl;
          },
        )

  exchange_on_err :
      (w : World socket) (command : ℕ) (message : List ℕ) (stream : socket.State)
      → (c : ClientTl socket) (x : Error)
      → (message_exchange socket c command message
          (record { stream = stream; buffer = c.buffer })).0
        ≡ err x
      → ((exchange_on socket w command message (some stream) c).0 ≡ err x)
        × Dropped w c (exchange_on socket w command message (some stream) c).1
  unfolding exchange_on
  exchange_on_err w command message stream c x failed =
      rw (failed, exchange_on) (refl, record { gone = refl; stopped = refl })

  -- On a network that loses nothing, with keep-alive, an open connection and answer mode, where the
  -- server acknowledges the request header and sends a response of status 1 with a payload within
  -- 32 bits and within the limit: the call returns that payload, has sent the request header, the
  -- message and the acknowledgement of the response, and keeps the connection for the next call.
  pub handle_message_replies :
      (w : World socket) (command : ℕ) (message reply rest : List ℕ)
      → (c : ClientTl socket) (stream : socket.State) → c.keep_alive ≡ true
      → c.stream ≡ some stream
      → c.command_has_answer ≡ true
      → IsU32 (length reply)
      → length reply ≤ c.max_buffer_size
      → net.pending stream
        ≡ 1
          ∷ (encode_response (record { status = 1; data_size = length reply }) [] false
              ++ (reply ++ rest))
      → ((handle_message socket w command message c).0 ≡ ok reply)
        × Kept w.now stream
            (handle_message socket w command message c).1
            rest
            ((encode_request (request_header command message) [] ++ message) ++ 1 ∷ [])
  handle_message_replies w command message reply rest c stream alive held answers hu fits e =
      let l : Link socket = record { stream = stream; buffer = c.buffer } in
      let (done, passed) = message_exchange_ok c command message reply rest l answers hu fits e in
      rw (handle_message_reuse socket w command message c stream alive held) (
        exchange_on_ok w command message stream c reply rest
          ((encode_request (request_header command message) [] ++ message) ++ 1 ∷ []) done passed)

  -- On a network that loses nothing, with keep-alive, an open connection and answer mode, where the
  -- request header is acknowledged and the response has another status than 1 and a size within 32
  -- bits and within the limit: the call fails with that status, the connection is dropped and
  -- `stop_ping_task` called.
  pub handle_message_status :
      (w : World socket) (command : ℕ) (message rest : List ℕ) (h : ResponseHeader)
      → (c : ClientTl socket) (stream : socket.State) → c.keep_alive ≡ true
      → c.stream ≡ some stream
      → c.command_has_answer ≡ true
      → IsU32 h.data_size
      → h.data_size ≤ c.max_buffer_size
      → h.status ≢ 1
      → net.pending stream ≡ 1 ∷ (encode_response h [] false ++ rest)
      → ((handle_message socket w command message c).0 ≡ err (response_error h.status))
        × Dropped w c (handle_message socket w command message c).1
  handle_message_status w command message rest h c stream alive held answers hu fits bad e =
      let l : Link socket = record { stream = stream; buffer = c.buffer } in
      let t = c.timeout_config in
      let max = c.max_buffer_size in
      let sent =
        send_message_accepted socket net t true max command message
          (encode_response h [] false ++ rest) l e in
      let m = (send_message socket t true max command message l).1 in
      let got = receive_message_status socket net t max h rest m hu fits bad sent.1.pending_left in
      rw (handle_message_reuse socket w command message c stream alive held) (
        exchange_on_err w command message stream c (response_error h.status)
          (unfold message_exchange in rw answers (rw sent.0 got.0)))

  -- On a network that loses nothing, with keep-alive and an open connection, where the server
  -- answers the request header by another status than 1: the call fails with that status, the
  -- connection is dropped, `stop_ping_task` called, and the message itself was not sent.
  pub handle_message_rejected :
      (w : World socket) (command ack : ℕ) (message rest : List ℕ)
      → (c : ClientTl socket) (stream : socket.State) → c.keep_alive ≡ true
      → c.stream ≡ some stream
      → ack ≢ 1
      → net.pending stream ≡ ack ∷ rest
      → ((handle_message socket w command message c).0 ≡ err (response_error ack))
        × Dropped w c (handle_message socket w command message c).1
        × (net.sent
              (message_exchange socket c command message
                (record { stream = stream; buffer = c.buffer })).1.stream
            ≡ net.sent stream ++ encode_request (request_header command message) [])
  handle_message_rejected w command ack message rest c stream alive held bad e =
      let l : Link socket = record { stream = stream; buffer = c.buffer } in
      let t = c.timeout_config in
      let sent =
        send_message_rejected socket net t c.command_has_answer c.max_buffer_size command message
          ack rest l e bad in
      let failed : (message_exchange socket c command message l).0 ≡ err (response_error ack) =
        unfold message_exchange in rw sent.0 refl in
      let dropped = exchange_on_err w command message stream c (response_error ack) failed in
      rw (handle_message_reuse socket w command message c stream alive held)
        (dropped.0, dropped.1, unfold message_exchange in rw sent.0 sent.1.sent_out)

  -- On a network that loses nothing, with keep-alive, an open connection and no-answer mode, the
  -- five-byte header of a reply is read as one byte: the call succeeds with no payload, and leaves
  -- the size and the payload in the stream of the connection that it keeps.
  pub handle_message_desync :
      (w : World socket) (command : ℕ) (message rest : List ℕ) (size : ℕ)
      → (c : ClientTl socket) (stream : socket.State) → c.keep_alive ≡ true
      → c.stream ≡ some stream
      → c.command_has_answer ≡ false
      → net.pending stream
        ≡ 1 ∷ (encode_response (record { status = 1; data_size = size }) [] false ++ rest)
      → ((handle_message socket w command message c).0 ≡ ok [])
        × Kept w.now stream
            (handle_message socket w command message c).1
            (u32_to_be_bytes size ++ rest)
            ((encode_request (request_header command message) [] ++ message) ++ 1 ∷ [])
  handle_message_desync w command message rest size c stream alive held answers e =
      let l : Link socket = record { stream = stream; buffer = c.buffer } in
      let t = c.timeout_config in
      let max = c.max_buffer_size in
      let left = u32_to_be_bytes size ++ rest in
      let sent =
        send_message_accepted socket net t false max command message (1 ∷ left) l
          (unfold encode_response in e) in
      let m = (send_message socket t false max command message l).1 in
      let got = receive_message_unanswered socket net t max left m sent.1.pending_left in
      let out = (encode_request (request_header command message) [] ++ message) ++ 1 ∷ [] in
      rw (handle_message_reuse socket w command message c stream alive held) (
        exchange_on_ok w command message stream c [] left out
          (unfold message_exchange in rw answers (rw sent.0 got.0))
          (unfold message_exchange in
            rw answers (
              rw sent.0 (
                Passed-trans socket net (1 ∷ left) left
                  (encode_request (request_header command message) [] ++ message) (1 ∷ []) sent.1
                  got.1))))

  -- On a network that loses nothing, with keep-alive, an open connection and no-answer mode, a
  -- server that sends nothing behind the acknowledgement of the request header makes the call time
  -- out; the connection is dropped and `stop_ping_task` called.
  pub handle_message_silent :
      (w : World socket) (command : ℕ) (message : List ℕ)
      → (c : ClientTl socket) (stream : socket.State) → c.keep_alive ≡ true
      → c.stream ≡ some stream
      → c.command_has_answer ≡ false
      → net.pending stream ≡ 1 ∷ []
      → net.is_closed stream ≡ false
      → ((handle_message socket w command message c).0
          ≡ err (timeout (text "Waiting for response header")))
        × Dropped w c (handle_message socket w command message c).1
  handle_message_silent w command message c stream alive held answers e silent =
      let l : Link socket = record { stream = stream; buffer = c.buffer } in
      let t = c.timeout_config in
      let max = c.max_buffer_size in
      let sent = send_message_accepted socket net t false max command message [] l e in
      let m = (send_message socket t false max command message l).1 in
      let late =
        receive_header_silent socket net false false t.read_header max m sent.1.pending_left
          (sent.1.closed_kept ∙ silent) (unfold encoded_len in omega arith) in
      rw (handle_message_reuse socket w command message c stream alive held) (
        exchange_on_err w command message stream c (timeout (text "Waiting for response header"))
          (unfold message_exchange receive_message in rw answers (rw sent.0 (rw late refl))))
