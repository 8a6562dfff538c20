-- ===== src/ClientTl/Transfers.antt =====
-- What each transfer on the client's stream does on a network that loses nothing.
use wagonet.Prelude.{
  ℕ, ◌≤◌, ◌<◌, ◌≡◌, refl, sym, ap, ◌∙◌, Bool, true, false, List, [], ◌∷◌, ◌++◌, append-nil,
  append_assoc, arith, length, ◌==◌,
}
use wagonet.Errors.{ok, err, timeout, text, in_time}
use wagonet.Timeouts.{TimeoutConfig}
use wagonet.Headers.Bytes.{IsU32}
use wagonet.Headers.{
  RequestHeader, ResponseHeader, encode_request, encode_response, decode_response, encoded_len,
}
use wagonet.Headers.RoundTrip.{length-encode_response, decode-encode_response}
use wagonet.Vec.{resize}
use wagonet.Vec.Length.{length-resize}
use wagonet.Socket.{Socket}
use wagonet.Socket.Delivery.{Network}
use wagonet.Socket.Delivery.Frames.{read_exact_or_closed_all}
use wagonet.ClientTl.Locked.{
  Link, write_all, flush, send_request_header, send_response_header, receive_response_header,
  read_response,
}

module _ (socket : Socket) (net : Network socket) where
  -- From `l` to `l'` the client has read all but `rest` of the pending bytes, and written `out`.
  pub record Passed (l l' : Link socket) (rest out : List ℕ) : Type 0 where
    pub pending_left : net.pending l'.stream ≡ rest
    pub sent_out : net.sent l'.stream ≡ net.sent l.stream ++ out
    pub closed_kept : net.is_closed l'.stream ≡ net.is_closed l.stream

  pub Passed-trans :
      {l m n : Link socket} (rest rest' out out' : List ℕ)
      → Passed l m rest out
      → Passed m n rest' out'
      → Passed l n rest' (out ++ out')
  Passed-trans rest rest' out out' p q = record {
    pending_left = q.pending_left;
    sent_out = q.sent_out ∙ rw (p.sent_out, append_assoc) refl;
    closed_kept = q.closed_kept ∙ p.closed_kept;
  }

  -- A second part that only writes.
  pub Passed-then :
      {l m n : Link socket} (rest out out' : List ℕ)
      → Passed l m rest out
      → Passed m n (net.pending m.stream) out'
      → Passed l n rest (out ++ out')
  Passed-then rest out out' p q = record {
    pending_left = q.pending_left ∙ p.pending_left;
    sent_out = q.sent_out ∙ rw (p.sent_out, append_assoc) refl;
    closed_kept = q.closed_kept ∙ p.closed_kept;
  }

  pub write_all_lem :
      (d : ℕ) (bytes : List ℕ) (l : Link socket)
      → ((socket.write_all d bytes l.stream).0 ≡ in_time (ok tt))
        × Passed l (write_all socket d bytes l).1 (net.pending l.stream) bytes
  unfolding write_all
  write_all_lem d bytes l =
      let wrote = net.write_all_ok d bytes l.stream in
      (wrote.0, record { pending_left = wrote.1; sent_out = wrote.2; closed_kept = wrote.3 })

  pub flush_lem :
      (l : Link socket)
      → ((flush socket l).0 ≡ ok tt) × Passed l (flush socket l).1 (net.pending l.stream) []
  unfolding flush
  flush_lem l =
      let flushed = net.flush_ok l.stream in
      rw flushed.0 (
        refl,
        record {
          pending_left = flushed.1;
          sent_out = flushed.2 ∙ sym (append-nil _);
          closed_kept = flushed.3;
        },
      )

  pub send_request_header_lem :
      (h : RequestHeader) (d : ℕ) (l : Link socket)
      → ((send_request_header socket h.command h.data_size d l).0 ≡ ok tt)
        × Passed l
            (send_request_header socket h.command h.data_size d l).1
            (net.pending l.stream)
            (encode_request h [])
  unfolding send_request_header
  send_request_header_lem h d l =
      let wrote = net.write_all_ok d (encode_request h []) l.stream in
      let flushed = net.flush_ok (socket.write_all d (encode_request h []) l.stream).1 in
      rw (wrote.0, flushed.0)
        (
          refl,
          record {
            pending_left = flushed.1 ∙ wrote.1;
            sent_out = flushed.2 ∙ wrote.2;
            closed_kept = flushed.3 ∙ wrote.3;
          },
        )

  -- The acknowledgement of a response header is the one byte 1.
  pub send_ack_lem :
      (d : ℕ) (l : Link socket)
      → ((send_response_header socket 1 0 d l).0 ≡ ok tt)
        × Passed l (send_response_header socket 1 0 d l).1 (net.pending l.stream) (1 ∷ [])
  unfolding send_response_header encode_response
  send_ack_lem d l =
      let wrote = net.write_all_ok d (1 ∷ []) l.stream in
      let flushed = net.flush_ok (socket.write_all d (1 ∷ []) l.stream).1 in
      rw (wrote.0, flushed.0)
        (
          refl,
          record {
            pending_left = flushed.1 ∙ wrote.1;
            sent_out = flushed.2 ∙ wrote.2;
            closed_kept = flushed.3 ∙ wrote.3;
          },
        )

  -- A header that is read in the default mode, or without an answer, is one byte.
  pub receive_default_header :
      (has_answer : Bool) (d max status : ℕ) (rest : List ℕ) (l : Link socket)
      → net.pending l.stream ≡ status ∷ rest
      → ((receive_response_header socket true has_answer d max l).0
          ≡ ok (record { status = status; data_size = 0 }))
        × Passed l (receive_response_header socket true has_answer d max l).1 rest []
  unfolding receive_response_header decode_response encoded_len
  receive_default_header has_answer d max status rest l e =
      let got =
        net.read_exact_all d (resize 1 l.buffer).items l.stream (status ∷ []) rest e
          (sym (length-resize 1 l.buffer)) in
      rw (got.0, got.1)
        (
          refl,
          record {
            pending_left = got.2;
            sent_out = got.3 ∙ sym (append-nil _);
            closed_kept = got.4;
          },
        )

  pub receive_unanswered_header :
      (d max status : ℕ) (rest : List ℕ) (l : Link socket)
      → net.pending l.stream ≡ status ∷ rest
      → ((receive_response_header socket false false d max l).0
          ≡ ok (record { status = status; data_size = 0 }))
        × Passed l (receive_response_header socket false false d max l).1 rest []
  unfolding receive_response_header decode_response encoded_len
  receive_unanswered_header d max status rest l e =
      let got =
        net.read_exact_all d (resize 1 l.buffer).items l.stream (status ∷ []) rest e
          (sym (length-resize 1 l.buffer)) in
      rw (got.0, got.1)
        (
          refl,
          record {
            pending_left = got.2;
            sent_out = got.3 ∙ sym (append-nil _);
            closed_kept = got.4;
          },
        )

  pub receive_sized_header :
      (h : ResponseHeader) (d max : ℕ) (rest : List ℕ) (l : Link socket)
      → IsU32 h.data_size
      → h.data_size ≤ max
      → net.pending l.stream ≡ encode_response h [] false ++ rest
      → ((receive_response_header socket false true d max l).0 ≡ ok h)
        × Passed l (receive_response_header socket false true d max l).1 rest []
  unfolding receive_response_header encoded_len
  receive_sized_header h d max rest l hu fits e =
      let got =
        net.read_exact_all d (resize 5 l.buffer).items l.stream (encode_response h [] false) rest e
          (length-encode_response h false ∙ sym (length-resize 5 l.buffer)) in
      let decoded : decode_response (encode_response h [] false) false max ≡ ok (h, []) =
        ap (λ b. decode_response b false max) (sym (append-nil (encode_response h [] false)))
        ∙ decode-encode_response h [] false max hu fits in
      rw (got.0, got.1, decoded)
        (
          refl,
          record {
            pending_left = got.2;
            sent_out = got.3 ∙ sym (append-nil _);
            closed_kept = got.4;
          },
        )

  -- A header that does not come in time.
  pub receive_header_silent :
      (is_default has_answer : Bool) (d max : ℕ) (l : Link socket)
      → net.pending l.stream ≡ []
      → net.is_closed l.stream ≡ false
      → 0 < encoded_len is_default has_answer
      → (receive_response_header socket is_default has_answer d max l).0
        ≡ err (timeout (text "Waiting for response header"))
  unfolding receive_response_header
  receive_header_silent is_default has_answer d max l none silent pos =
      let n = encoded_len is_default has_answer in
      let late =
        net.read_exact_silent d (resize n l.buffer).items l.stream
          (omega (arith, ap length none, length-resize n l.buffer)) silent in
      rw late refl

  -- The payload of a response, of any length.
  pub read_response_all :
      (timeouts : TimeoutConfig) (reply rest : List ℕ) (l : Link socket)
      → net.pending l.stream ≡ reply ++ rest
      → ((read_response socket timeouts (length reply) l).0 ≡ ok reply)
        × Passed l (read_response socket timeouts (length reply) l).1 rest []
  unfolding read_response
  read_response_all timeouts [] rest l e =
      (refl, record { pending_left = e; sent_out = sym (append-nil _); closed_kept = refl })
  read_response_all timeouts (b ∷ reply) rest l e =
      let n = length (b ∷ reply) in
      let got =
        read_exact_or_closed_all socket net timeouts.read_data (resize n l.buffer).items l.stream
          (b ∷ reply) rest e (sym (length-resize n l.buffer)) in
      let some : (n == 0) ≡ false = ground arith in
      rw (some, read_response)
        (rw (got.0, got.1)
          (
            refl,
            record {
              pending_left = got.2.pending_left;
              sent_out = got.2.sent_kept ∙ sym (append-nil _);
              closed_kept = got.2.closed_kept;
            },
          ))
