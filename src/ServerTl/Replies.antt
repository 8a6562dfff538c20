-- ===== src/ServerTl/Replies.antt =====
-- How a connection sends a reply and takes the acknowledgement for it, on a network that loses
-- nothing.
use wagonet.Prelude.{
  ℕ, ◌≡◌, ◌≢◌, refl, sym, ◌∙◌, true, false, List, [], ◌∷◌, ◌++◌, append-nil, arith, Option, none,
  some, ◌==◌,
}
use wagonet.Errors.{ok, err, from_str}
use wagonet.Headers.Bytes.{as_u32}
use wagonet.Headers.{encode_response}
use wagonet.Socket.{Socket}
use wagonet.Socket.Delivery.{Network}
use wagonet.ServerTl.{
  ServerTl, send_response_header, receive_response_header, send_data, send_payload, check_ack,
  data_len, is_none, flush,
}
use wagonet.ServerTl.Transfers.{
  Moved, Moved-trans, Moved-then, Moved-still, send_response_header_lem, receive_default_header,
}

-- The frame of a reply: its header, and behind the acknowledgement its payload.
unfoldable pub reply_header : ℕ → Option (List ℕ) → List ℕ
unfolding data_len is_none
reply_header status buf =
    encode_response (record { status = status; data_size = as_u32 (data_len buf) }) [] (is_none buf)

unfoldable pub payload_of : Option (List ℕ) → List ℕ
payload_of none = []
payload_of (some bytes) = bytes

module _ (socket : Socket) (net : Network socket) where
  send_payload_lem :
      (buf : Option (List ℕ)) (s : ServerTl socket)
      → ((send_payload socket buf s).0 ≡ ok tt)
        × Moved socket net s (send_payload socket buf s).1 (net.pending s.stream) (payload_of buf)
  unfolding send_payload payload_of
  send_payload_lem none s = (
    refl,
    record {
      pending_left = refl;
      sent_out = sym (append-nil _);
      same_limit = refl;
      same_config = refl;
    },
  )
  send_payload_lem (some bytes) s =
      let wrote = net.write_all_ok s.timeout_config.write bytes s.stream in
      rw wrote.0 (
        refl,
        record {
          pending_left = wrote.1;
          sent_out = wrote.2;
          same_limit = refl;
          same_config = refl;
        },
      )

  flush_lem :
      (s : ServerTl socket)
      → ((flush socket s).0 ≡ ok tt)
        × Moved socket net s (flush socket s).1 (net.pending s.stream) []
  unfolding flush
  flush_lem s =
      let flushed = net.flush_ok s.stream in
      rw flushed.0 (
        refl,
        record {
          pending_left = flushed.1;
          sent_out = flushed.2 ∙ sym (append-nil _);
          same_limit = refl;
          same_config = refl;
        },
      )

  -- The header, and the acknowledgement `ack` for it.
  header_acknowledged :
      (status : ℕ) (buf : Option (List ℕ)) (ack : ℕ) (rest : List ℕ) (s : ServerTl socket)
      → net.pending s.stream ≡ ack ∷ rest
      → let t =
          (send_response_header socket status
            (as_u32 (data_len buf))
            (is_none buf)
            s.timeout_config.write
            s).1 in
        ((send_response_header socket status
            (as_u32 (data_len buf))
            (is_none buf)
            s.timeout_config.write
            s).0
          ≡ ok tt)
        × ((receive_response_header socket true t).0 ≡ ok (record { status = ack; data_size = 0 }))
        × Moved socket net s
            (receive_response_header socket true t).1
            rest
            (reply_header status buf)
  unfolding reply_header
  header_acknowledged status buf ack rest s e =
      let head =
        send_response_header_lem socket net status (as_u32 (data_len buf)) (is_none buf)
          s.timeout_config.write s in
      let t =
        (send_response_header socket status (as_u32 (data_len buf)) (is_none buf)
          s.timeout_config.write s).1 in
      let acked = receive_default_header socket net ack rest t (head.1.pending_left ∙ e) in
      (
        head.0,
        acked.0,
        rw append-nil at (
            Moved-trans socket net (net.pending s.stream) rest (reply_header status buf) [] head.1
              acked.1),
      )

  -- On a network that loses nothing, a reply whose header is acknowledged by 1 goes out whole: the
  -- header of its mode, then the payload. Nothing else is sent, and just the acknowledgement is
  -- read.
  pub send_data_acknowledged :
      (status : ℕ) (buf : Option (List ℕ)) (rest : List ℕ) (s : ServerTl socket)
      → net.pending s.stream ≡ 1 ∷ rest
      → ((send_data socket status buf s).0 ≡ ok tt)
        × Moved socket net s
            (send_data socket status buf s).1
            rest
            (reply_header status buf ++ payload_of buf)
  unfolding send_data
  send_data_acknowledged status buf rest s e =
      let (sent, acked, moved) = header_acknowledged status buf 1 rest s e in
      let t =
        (receive_response_header socket true
          (send_response_header socket status (as_u32 (data_len buf)) (is_none buf)
            s.timeout_config.write s).1).1 in
      let paid = send_payload_lem buf t in
      let flushed = flush_lem (send_payload socket buf t).1 in
      let all =
        Moved-still socket net rest (reply_header status buf ++ payload_of buf)
          (Moved-then socket net rest (reply_header status buf) (payload_of buf) moved paid.1)
          flushed.1 in
      rw (sent, acked)
        (rw paid.0 (
          rw flushed.0 (
            refl,
            record {
              pending_left = all.pending_left;
              sent_out = all.sent_out;
              same_limit = all.same_limit;
              same_config = all.same_config;
            },
          )))

  -- On a network that loses nothing, a reply that the client answers by another status than 1 is an
  -- error that has sent the header and no payload.
  pub send_data_rejected :
      (status : ℕ) (buf : Option (List ℕ)) (ack : ℕ) (rest : List ℕ) (s : ServerTl socket)
      → net.pending s.stream ≡ ack ∷ rest
      → ack ≢ 1
      → ((send_data socket status buf s).0 ≡ err (from_str "Receiving response status is not OK"))
        × Moved socket net s (send_data socket status buf s).1 rest (reply_header status buf)
  unfolding send_data
  send_data_rejected status buf ack rest s e bad =
      let (sent, acked, moved) = header_acknowledged status buf ack rest s e in
      let b : (ack == 1) ≡ false = ground arith in
      rw (sent, acked) (rw (b, check_ack) (refl, moved))
