-- ===== src/ClientTl/Stalls.antt =====
-- What an exchange of src/client_tl.rs has written when the server's bytes run out before its end.
use wagonet.Prelude.{
  ℕ, ◌≤◌, ◌<◌, ◌≡◌, refl, ap, ◌∙◌, Bool, true, false, List, [], ◌∷◌, ◌++◌, append_assoc, arith,
  length, le→ltb,
}
use wagonet.Errors.{Error, Result, ok, err, Timed, in_time, elapsed}
use wagonet.Headers.Bytes.{IsU32}
use wagonet.Headers.{ResponseHeader, encode_request, encode_response, encoded_len}
use wagonet.Timeouts.{TimeoutConfig}
use wagonet.Vec.{resize}
use wagonet.Vec.Length.{length-resize}
use wagonet.Socket.{Socket}
use wagonet.Socket.Reading.{read_exact_or_closed}
use wagonet.Socket.Delivery.{Network}
use wagonet.Socket.Delivery.Stalls.{read_exact_or_closed-sent}
use wagonet.ClientTl.Locked.{
  Link, send_request_header, send_response_header, receive_response_header, receive_payload,
  read_response, send_message, receive_message, check_size,
}
use wagonet.ClientTl.Transfers.{send_request_header_lem, receive_header_silent}
use wagonet.ClientTl.Messages.{request_header, send_message_accepted, response_acknowledged}
use wagonet.ClientTl.{ClientTl, message_exchange}

module _ (socket : Socket) (net : Network socket) where
  abbrev said : Link socket → List ℕ
  said l = net.sent l.stream

  -- A header that does not come in time, and nothing is written meanwhile.
  header_stalls :
      (is_default has_answer : Bool) (d max : ℕ) (l : Link socket)
      → net.pending l.stream ≡ []
      → net.is_closed l.stream ≡ false
      → 0 < encoded_len is_default has_answer
      → said (receive_response_header socket is_default has_answer d max l).1 ≡ said l
  unfolding receive_response_header
  header_stalls is_default has_answer d max l none silent pos =
      let buf = (resize (encoded_len is_default has_answer) l.buffer).items in
      let n = length-resize (encoded_len is_default has_answer) l.buffer in
      let late = net.read_exact_silent d buf l.stream (omega (arith, ap length none, n)) silent in
      rw late (net.read_exact_sent d buf l.stream)

  receive_payload-said :
      (timeouts : TimeoutConfig) (n : ℕ) (l : Link socket)
      → said (receive_payload socket timeouts n l).1 ≡ said l
  unfolding receive_payload
  receive_payload-said timeouts n l =
      let read =
        read_exact_or_closed socket timeouts.read_data (resize n l.buffer).items l.stream in
      let same =
        read_exact_or_closed-sent socket net timeouts.read_data (resize n l.buffer).items
          l.stream in
      go read.0 refl same
    where
      go :
          (got : Timed (Result Error (Unit {0})))
          → (read_exact_or_closed socket timeouts.read_data (resize n l.buffer).items l.stream).0
            ≡ got
          → net.sent
              (read_exact_or_closed socket timeouts.read_data (resize n l.buffer).items l.stream).2
            ≡ said l
          → said (receive_payload socket timeouts n l).1 ≡ said l
      go (in_time (ok u)) e same = rw e same
      go (in_time (err x)) e same = rw e same
      go elapsed e same = rw e same

  -- Reading the payload of a response writes nothing, however it ends.
  read_response-said :
      (timeouts : TimeoutConfig) (n : ℕ) (l : Link socket)
      → said (read_response socket timeouts n l).1 ≡ said l
  unfolding read_response
  read_response-said timeouts n l = ground (arith, receive_payload-said timeouts n l)

  module _ (c : ClientTl socket) (command : ℕ) (message : List ℕ) (l : Link socket) where
    abbrev out : List ℕ
    out = encode_request (request_header command message) []

    -- Before the server has answered anything, the request header is written.
    pub exchange_says_header :
        net.pending l.stream ≡ []
        → net.is_closed l.stream ≡ false
        → said (message_exchange socket c command message l).1 ≡ said l ++ out
    unfolding message_exchange send_message
    exchange_says_header none silent =
        let h = request_header command message in
        let t = c.timeout_config in
        let sent = send_request_header_lem socket net h t.write l in
        let m = (send_request_header socket command h.data_size t.write l).1 in
        let none_left = sent.1.pending_left ∙ none in
        let open_on = sent.1.closed_kept ∙ silent in
        let pos : 0 < encoded_len true c.command_has_answer = unfold encoded_len in omega arith in
        let late =
          receive_header_silent socket net true c.command_has_answer t.read_header c.max_buffer_size
            m none_left open_on pos in
        let same =
          header_stalls true c.command_has_answer t.read_header c.max_buffer_size m none_left
            open_on pos in
        rw sent.0 (rw late (same ∙ sent.1.sent_out))

    -- Behind the acknowledgement of the header, the payload is written too.
    pub exchange_says_message :
        net.pending l.stream ≡ 1 ∷ []
        → net.is_closed l.stream ≡ false
        → c.command_has_answer ≡ true
        → said (message_exchange socket c command message l).1 ≡ said l ++ (out ++ message)
    unfolding message_exchange receive_message
    exchange_says_message acked silent answers =
        let t = c.timeout_config in
        let max = c.max_buffer_size in
        let sent = send_message_accepted socket net t true max command message [] l acked in
        let m = (send_message socket t true max command message l).1 in
        let open_on = sent.1.closed_kept ∙ silent in
        let pos : 0 < encoded_len false true = unfold encoded_len in omega arith in
        let late =
          receive_header_silent socket net false true t.read_header max m sent.1.pending_left
            open_on pos in
        let same = header_stalls false true t.read_header max m sent.1.pending_left open_on pos in
        rw answers (rw sent.0 (rw late (same ∙ sent.1.sent_out)))

    -- Behind the header of the response its acknowledgement is written, and nothing after that,
    -- whether the payload comes or not.
    pub exchange_says_all :
        (n : ℕ) (rest : List ℕ)
        → IsU32 n
        → n ≤ c.max_buffer_size
        → c.command_has_answer ≡ true
        → net.pending l.stream
          ≡ 1 ∷ (encode_response (record { status = 1; data_size = n }) [] false ++ rest)
        → said (message_exchange socket c command message l).1
          ≡ said l ++ ((out ++ message) ++ 1 ∷ [])
    unfolding message_exchange receive_message
    exchange_says_all n rest small fits answers e =
        let t = c.timeout_config in
        let max = c.max_buffer_size in
        let h : ResponseHeader = record { status = 1; data_size = n } in
        let frame = encode_response h [] false ++ rest in
        let sent = send_message_accepted socket net t true max command message frame l e in
        let m = (send_message socket t true max command message l).1 in
        let (got, acked, passed) =
          response_acknowledged socket net t h max rest m small fits sent.1.pending_left in
        let r = (receive_response_header socket false true t.read_header max m).1 in
        let a = (send_response_header socket 1 0 t.write r).1 in
        let size = le→ltb max n fits in
        rw answers (
          rw sent.0 (
            rw (got, acked)
              (rw (size, check_size)
                (read_response-said t n a
                  ∙ passed.sent_out
                  ∙ ap (λ b. b ++ 1 ∷ []) sent.1.sent_out
                  ∙ append_assoc (said l) (out ++ message) (1 ∷ [])))))
