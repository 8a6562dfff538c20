-- ===== src/ClientTl/Messages.antt =====
-- The two halves of an exchange on the client's stream, on a network that loses nothing.
use wagonet.Prelude.{
  ℕ, ◌≤◌, ◌≡◌, ◌≢◌, refl, ◌∙◌, Bool, true, false, List, [], ◌∷◌, ◌++◌, append-nil, arith, length,
  le→ltb, ◌==◌,
}
use wagonet.Errors.{ok, err, response_error}
use wagonet.Headers.Bytes.{IsU32, as_u32}
use wagonet.Headers.{RequestHeader, ResponseHeader, encode_request, encode_response}
use wagonet.Timeouts.{TimeoutConfig}
use wagonet.Socket.{Socket}
use wagonet.Socket.Delivery.{Network}
use wagonet.ClientTl.Locked.{
  Link, write_all, send_request_header, send_response_header, receive_response_header,
  read_response, send_message, receive_message, check_size, check_status,
}
use wagonet.ClientTl.Transfers.{
  Passed, Passed-trans, Passed-then, write_all_lem, flush_lem, send_request_header_lem,
  send_ack_lem, receive_default_header, receive_unanswered_header, receive_sized_header,
  read_response_all,
}

-- the header of the request for `message`; its size is cut to 32 bits
abbrev pub request_header : ℕ → List ℕ → RequestHeader
request_header command message = record { command = command; data_size = as_u32 (length message) }

module _ (socket : Socket) (net : Network socket) (timeouts : TimeoutConfig) where
  -- The request header, and the server's answer `ack` to it.
  header_answered :
      (has_answer : Bool) (max command : ℕ) (message : List ℕ) (ack : ℕ) (rest : List ℕ)
      → (l : Link socket) → net.pending l.stream ≡ ack ∷ rest
      → let m = (send_request_header socket command (as_u32 (length message)) timeouts.write l).1 in
        ((send_request_header socket command (as_u32 (length message)) timeouts.write l).0 ≡ ok tt)
        × ((receive_response_header socket true has_answer timeouts.read_header max m).0
            ≡ ok (record { status = ack; data_size = 0 }))
        × Passed socket net l
            (receive_response_header socket true has_answer timeouts.read_header max m).1
            rest
            (encode_request (request_header command message) [])
  header_answered has_answer max command message ack rest l e =
      let h = request_header command message in
      let sent = send_request_header_lem socket net h timeouts.write l in
      let m = (send_request_header socket command (as_u32 (length message)) timeouts.write l).1 in
      let acked =
        receive_default_header socket net has_answer timeouts.read_header max ack rest m
          (sent.1.pending_left ∙ e) in
      (
        sent.0,
        acked.0,
        rw append-nil at (
            Passed-trans socket net (net.pending l.stream) rest (encode_request h []) [] sent.1
              acked.1),
      )

  -- An accepted request goes out whole: the header, and behind the acknowledgement the payload.
  pub send_message_accepted :
      (has_answer : Bool) (max command : ℕ) (message rest : List ℕ) (l : Link socket)
      → net.pending l.stream ≡ 1 ∷ rest
      → ((send_message socket timeouts has_answer max command message l).0 ≡ ok tt)
        × Passed socket net l
            (send_message socket timeouts has_answer max command message l).1
            rest
            (encode_request (request_header command message) [] ++ message)
  unfolding send_message
  send_message_accepted has_answer max command message rest l e =
      let (sent, acked, passed) = header_answered has_answer max command message 1 rest l e in
      let m =
        (receive_response_header socket true has_answer timeouts.read_header max
          (send_request_header socket command (as_u32 (length message)) timeouts.write l).1).1 in
      let paid = write_all_lem socket net timeouts.write message m in
      let flushed = flush_lem socket net (write_all socket timeouts.write message m).1 in
      let all =
        Passed-then socket net rest (encode_request (request_header command message) [] ++ message)
          []
          (Passed-then socket net rest (encode_request (request_header command message) []) message
            passed paid.1)
          flushed.1 in
      rw (sent, acked)
        (rw paid.0 (
          rw flushed.0 (
            refl,
            record {
              pending_left = all.pending_left;
              sent_out = rw append-nil at all.sent_out;
              closed_kept = all.closed_kept;
            },
          )))

  -- A request that the server answers with another status than 1 sends its header and no payload.
  pub send_message_rejected :
      (has_answer : Bool) (max command : ℕ) (message : List ℕ) (ack : ℕ) (rest : List ℕ)
      → (l : Link socket) → net.pending l.stream ≡ ack ∷ rest
      → ack ≢ 1
      → ((send_message socket timeouts has_answer max command message l).0
          ≡ err (response_error ack))
        × Passed socket net l
            (send_message socket timeouts has_answer max command message l).1
            rest
            (encode_request (request_header command message) [])
  unfolding send_message
  send_message_rejected has_answer max command message ack rest l e bad =
      let (sent, acked, passed) = header_answered has_answer max command message ack rest l e in
      let b : (ack == 1) ≡ false = ground arith in
      rw (sent, acked) (rw (b, check_status) (refl, passed))

  -- A response header, and the acknowledgement that is sent whatever its status.
  pub response_acknowledged :
      (h : ResponseHeader) (max : ℕ) (rest : List ℕ) (l : Link socket)
      → IsU32 h.data_size
      → h.data_size ≤ max
      → net.pending l.stream ≡ encode_response h [] false ++ rest
      → let m = (receive_response_header socket false true timeouts.read_header max l).1 in
        ((receive_response_header socket false true timeouts.read_header max l).0 ≡ ok h)
        × ((send_response_header socket 1 0 timeouts.write m).0 ≡ ok tt)
        × Passed socket net l (send_response_header socket 1 0 timeouts.write m).1 rest (1 ∷ [])
  response_acknowledged h max rest l hu fits e =
      let got = receive_sized_header socket net h timeouts.read_header max rest l hu fits e in
      let m = (receive_response_header socket false true timeouts.read_header max l).1 in
      let acked = send_ack_lem socket net timeouts.write m in
      (got.0, acked.0, Passed-then socket net rest [] (1 ∷ []) got.1 acked.1)

  -- A response of status 1 is acknowledged and its payload returned.
  pub receive_message_ok :
      (max : ℕ) (reply rest : List ℕ) (l : Link socket)
      → IsU32 (length reply)
      → length reply ≤ max
      → net.pending l.stream
        ≡ encode_response (record { status = 1; data_size = length reply }) [] false
          ++ (reply ++ rest)
      → ((receive_message socket timeouts true max l).0 ≡ ok reply)
        × Passed socket net l (receive_message socket timeouts true max l).1 rest (1 ∷ [])
  unfolding receive_message
  receive_message_ok max reply rest l hu fits e =
      let h : ResponseHeader = record { status = 1; data_size = length reply } in
      let (got, acked, passed) = response_acknowledged h max (reply ++ rest) l hu fits e in
      let m = (receive_response_header socket false true timeouts.read_header max l).1 in
      let n = (send_response_header socket 1 0 timeouts.write m).1 in
      let body = read_response_all socket net timeouts reply rest n passed.pending_left in
      let size = le→ltb max (length reply) fits in
      rw (got, acked)
        (rw (size, check_size)
          (
            body.0,
            rw append-nil at
                (Passed-trans socket net (reply ++ rest) rest (1 ∷ []) [] passed body.1),
          ))

  -- A response of another status is acknowledged too, and its payload left unread.
  pub receive_message_status :
      (max : ℕ) (h : ResponseHeader) (rest : List ℕ) (l : Link socket)
      → IsU32 h.data_size
      → h.data_size ≤ max
      → h.status ≢ 1
      → net.pending l.stream ≡ encode_response h [] false ++ rest
      → ((receive_message socket timeouts true max l).0 ≡ err (response_error h.status))
        × Passed socket net l (receive_message socket timeouts true max l).1 rest (1 ∷ [])
  unfolding receive_message
  receive_message_status max h rest l hu fits bad e =
      let (got, acked, passed) = response_acknowledged h max rest l hu fits e in
      let b : (h.status == 1) ≡ false = ground arith in
      rw (got, acked) (rw (b, check_status) (refl, passed))

  -- Without an answer one byte is taken for the whole response, and the result is empty.
  pub receive_message_unanswered :
      (max : ℕ) (rest : List ℕ) (l : Link socket)
      → net.pending l.stream ≡ 1 ∷ rest
      → ((receive_message socket timeouts false max l).0 ≡ ok [])
        × Passed socket net l (receive_message socket timeouts false max l).1 rest (1 ∷ [])
  unfolding receive_message read_response
  receive_message_unanswered max rest l e =
      let got = receive_unanswered_header socket net timeouts.read_header max 1 rest l e in
      let m = (receive_response_header socket false false timeouts.read_header max l).1 in
      let acked = send_ack_lem socket net timeouts.write m in
      let passed = Passed-then socket net rest [] (1 ∷ []) got.1 acked.1 in
      let size = le→ltb max 0 (omega arith) in
      rw (got.0, acked.0)
        (rw (size, check_size)
          (
            refl,
            record {
              pending_left = passed.pending_left;
              sent_out = passed.sent_out;
              closed_kept = passed.closed_kept;
            },
          ))
