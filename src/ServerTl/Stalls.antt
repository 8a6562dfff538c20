-- ===== src/ServerTl/Stalls.antt =====
-- What src/server_tl.rs has written when the client's bytes run out.
use wagonet.Prelude.{
  ℕ, ◌≤◌, ◌<◌, ◌≡◌, refl, ap, ◌∙◌, true, List, [], ◌++◌, arith, Option, length, le→ltb,
}
use wagonet.Errors.{
  Error, IoError, Result, err, from_str, Timed, connection_closed, connection_closed_mid_frame,
}
use wagonet.Headers.Bytes.{as_u32}
use wagonet.Headers.{encoded_len}
use wagonet.Vec.{resize}
use wagonet.Vec.Length.{length-resize}
use wagonet.Socket.{Socket}
use wagonet.Socket.Reading.{read_exact_or_closed}
use wagonet.Socket.Delivery.{Network}
use wagonet.Socket.Delivery.Stalls.{
  Stalled, late, failed, read_exact_or_closed-sent, read_exact_or_closed-Stalled,
  read_exact-Stalled,
}
use wagonet.ServerTl.{
  ServerTl, settle_data, receive_data, read_payload, send_response_header, receive_response_header,
  send_data, data_len, is_none,
}
use wagonet.ServerTl.Transfers.{send_response_header_lem}
use wagonet.ServerTl.Replies.{reply_header}

settle_data_stalls :
    (out_of_time : Error) (n : ℕ) (got : Timed (Result Error (Unit {0})))
    → Stalled got
    → (x : Error) × (settle_data out_of_time n got ≡ err x)
unfolding settle_data
settle_data_stalls out_of_time n _ late = (out_of_time, refl)
settle_data_stalls out_of_time n _ (failed connection_closed) =
    (connection_closed_mid_frame 0 n, refl)
settle_data_stalls out_of_time n _ (failed x) = (x, refl)

module _ (socket : Socket) (net : Network socket) where
  -- A payload of which nothing comes is an error, and nothing is written.
  pub receive_data_stalls :
      (n : ℕ) (s : ServerTl socket)
      → net.pending s.stream ≡ []
      → 0 < n
      → n ≤ s.max_buffer_size
      → (x : Error) × ((receive_data socket n s).0 ≡ err x)
        × (net.sent (receive_data socket n s).1.stream ≡ net.sent s.stream)
  unfolding receive_data read_payload
  receive_data_stalls n s none pos fits =
      let d = s.timeout_config.read_data in
      let buf = (resize n s.buffer).items in
      let short : length (net.pending s.stream) < length buf =
        omega (arith, ap length none, length-resize n s.buffer) in
      let stalls = read_exact_or_closed-Stalled socket net d buf s.stream short in
      let (x, e) =
        settle_data_stalls (from_str "Timeout waiting for data") n
          (read_exact_or_closed socket d buf s.stream).0 stalls in
      rw (le→ltb s.max_buffer_size n fits, receive_data)
        (rw e (x, refl, read_exact_or_closed-sent socket net d buf s.stream))

  -- The same of an acknowledgement.
  acknowledgement_stalls :
      (s : ServerTl socket)
      → net.pending s.stream ≡ []
      → (x : Error) × ((receive_response_header socket true s).0 ≡ err x)
        × (net.sent (receive_response_header socket true s).1.stream ≡ net.sent s.stream)
  unfolding receive_response_header encoded_len
  acknowledgement_stalls s none =
      let d = s.timeout_config.read_header in
      let buf = (resize 1 s.buffer).items in
      let short : length (net.pending s.stream) < length buf =
        omega (arith, ap length none, length-resize 1 s.buffer) in
      go (socket.read_exact d buf s.stream).0 refl
        (read_exact-Stalled socket net d buf s.stream short) (net.read_exact_sent d buf s.stream)
    where
      go :
          (got : Timed (Result IoError (Unit {0})))
          → (socket.read_exact s.timeout_config.read_header (resize 1 s.buffer).items s.stream).0
            ≡ got
          → Stalled got
          → net.sent
              (socket.read_exact s.timeout_config.read_header (resize 1 s.buffer).items s.stream).2
            ≡ net.sent s.stream
          → (x : Error) × ((receive_response_header socket true s).0 ≡ err x)
            × (net.sent (receive_response_header socket true s).1.stream ≡ net.sent s.stream)
      go _ e late same = rw e (from_str "Timeout waiting for response header", refl, same)
      go _ e (failed x) same = rw e (Error.io x, refl, same)

  -- A reply whose header is not acknowledged is an error that has written just that header.
  pub send_data_stalls :
      (status : ℕ) (buf : Option (List ℕ)) (s : ServerTl socket)
      → net.pending s.stream ≡ []
      → (x : Error) × ((send_data socket status buf s).0 ≡ err x)
        × (net.sent (send_data socket status buf s).1.stream
            ≡ net.sent s.stream ++ reply_header status buf)
  unfolding send_data reply_header
  send_data_stalls status buf s none =
      let n = as_u32 (data_len buf) in
      let d = s.timeout_config.write in
      let head = send_response_header_lem socket net status n (is_none buf) d s in
      let t = (send_response_header socket status n (is_none buf) d s).1 in
      let (x, failed_to, same) = acknowledgement_stalls t (head.1.pending_left ∙ none) in
      rw head.0 (rw failed_to (x, refl, same ∙ head.1.sent_out))
