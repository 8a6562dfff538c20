-- ===== src/Ping/Replies.antt =====
-- The ping request and which ping responses are accepted: src/ping.rs, on a network that loses nothing.
use wagonet.Prelude.{
  ℕ, ◌≡◌, refl, ap, ◌∙◌, true, false, List, [], ◌∷◌, ◌++◌, arith, length, if◌then◌else◌, ◌==◌,
}
use wagonet.Errors.{
  Error, Result, ok, err, text, protocol, response_error, connection_closed, in_time,
}
use wagonet.Headers.Bytes.{IsU32, u32_to_be_bytes, from-to_be_bytes}
use wagonet.Headers.{ResponseHeader, encode_response, encode_request}
use wagonet.Socket.{Socket}
use wagonet.Socket.Delivery.{Network}
use wagonet.Ping.{
  ping_old_format_read_timeout, receive_ping_response, send_ping_request, exchange_ping,
}

-- The verdict on a status byte, and on the size behind it.
unfoldable pub verdict : ℕ → ℕ → Result Error (Unit {0})
verdict status size =
    if status == 1
    then (if size == 0 then ok tt else err (protocol (text "ping response must have data_size 0")))
    else err (response_error status)

abbrev pub ping_frame : List ℕ
ping_frame = encode_request (record { command = 0; data_size = 0 }) []

module _ (socket : Socket) (net : Network socket) where
  status_read :
      (d status : ℕ) (rest : List ℕ) (s : socket.State)
      → net.pending s ≡ status ∷ rest
      → ((socket.read_exact d (0 ∷ []) s).0 ≡ in_time (ok tt))
        × ((socket.read_exact d (0 ∷ []) s).1 ≡ status ∷ [])
        × (net.pending (socket.read_exact d (0 ∷ []) s).2 ≡ rest)
        × (net.sent (socket.read_exact d (0 ∷ []) s).2 ≡ net.sent s)
        × (net.is_closed (socket.read_exact d (0 ∷ []) s).2 ≡ net.is_closed s)
  status_read d status rest s e = net.read_exact_all d (0 ∷ []) s (status ∷ []) rest e refl

  -- On a network that loses nothing, the one byte of a new server that then stays silent is judged
  -- by its status alone.
  pub receive_ping_response_new :
      (d status : ℕ) (s : socket.State)
      → net.pending s ≡ status ∷ []
      → net.is_closed s ≡ false
      → (receive_ping_response socket d s).0 ≡ verdict status 0
  unfolding receive_ping_response verdict
  receive_ping_response_new d status s e silent =
      let (got, bytes, left, _, open_still) = status_read d status [] s e in
      let s' = (socket.read_exact d (0 ∷ []) s).2 in
      let late =
        net.read_exact_silent ping_old_format_read_timeout (0 ∷ 0 ∷ 0 ∷ 0 ∷ []) s'
          (omega (arith, ap length left)) (open_still ∙ silent) in
      ground (arith, got, bytes, late)

  -- The one byte 1 of a new server is read to its end.
  receive_ping_response_kept :
      (d : ℕ) (s : socket.State)
      → net.pending s ≡ 1 ∷ []
      → net.is_closed s ≡ false
      → ((receive_ping_response socket d s).0 ≡ ok tt)
        × (net.pending (receive_ping_response socket d s).1 ≡ [])
        × (net.sent (receive_ping_response socket d s).1 ≡ net.sent s)
        × (net.is_closed (receive_ping_response socket d s).1 ≡ false)
  unfolding receive_ping_response
  receive_ping_response_kept d s e silent =
      let (got, bytes, left, out, open_still) = status_read d 1 [] s e in
      let s' = (socket.read_exact d (0 ∷ []) s).2 in
      let open_on = open_still ∙ silent in
      let zeros : List ℕ = 0 ∷ 0 ∷ 0 ∷ 0 ∷ [] in
      let late =
        net.read_exact_silent ping_old_format_read_timeout zeros s' (omega (arith, ap length left))
          open_on in
      let idle =
        net.read_exact_idle ping_old_format_read_timeout zeros s' (omega arith) left open_on in
      (
        ground (arith, got, bytes, late),
        ground (arith, got, bytes, late, idle.0),
        ground (arith, got, bytes, late, idle.1, out),
        ground (arith, got, bytes, late, idle.2, open_on),
      )

  -- A ping request is one header of command and size zero.
  pub send_ping_request_lem :
      (s : socket.State)
      → ((send_ping_request socket s).0 ≡ ok tt)
        × (net.pending (send_ping_request socket s).1 ≡ net.pending s)
        × (net.sent (send_ping_request socket s).1 ≡ net.sent s ++ ping_frame)
        × (net.is_closed (send_ping_request socket s).1 ≡ net.is_closed s)
  unfolding send_ping_request
  send_ping_request_lem s =
      let wrote = net.write_all_wait_ok ping_frame s in
      let flushed = net.flush_ok (socket.write_all_wait ping_frame s).1 in
      rw wrote.0
        (rw flushed.0 (refl, flushed.1 ∙ wrote.1, flushed.2 ∙ wrote.2, flushed.3 ∙ wrote.3))

  -- A ping that is answered by the one byte 1.
  pub exchange_ping_lem :
      (d : ℕ) (s : socket.State)
      → net.pending s ≡ 1 ∷ []
      → net.is_closed s ≡ false
      → ((exchange_ping socket d s).0 ≡ ok tt)
        × (net.pending (exchange_ping socket d s).1 ≡ [])
        × (net.sent (exchange_ping socket d s).1 ≡ net.sent s ++ ping_frame)
        × (net.is_closed (exchange_ping socket d s).1 ≡ false)
  unfolding exchange_ping
  exchange_ping_lem d s e silent =
      let asked = send_ping_request_lem s in
      let got =
        receive_ping_response_kept d (send_ping_request socket s).1 (asked.1 ∙ e)
          (asked.3 ∙ silent) in
      rw asked.0 (got.0, got.1, got.2 ∙ asked.2, got.3)

  -- On a network that loses nothing, the five bytes of an old server, with a size within 32 bits,
  -- are judged by status and size; a response of status 1 is read to its end.
  pub receive_ping_response_old :
      (d : ℕ) (h : ResponseHeader) (rest : List ℕ) (s : socket.State)
      → IsU32 h.data_size
      → net.pending s ≡ encode_response h [] false ++ rest
      → ((receive_ping_response socket d s).0 ≡ verdict h.status h.data_size)
        × (h.status ≡ 1 → net.pending (receive_ping_response socket d s).1 ≡ rest)
  unfolding receive_ping_response verdict
  receive_ping_response_old d h rest s hu e =
      let size = u32_to_be_bytes h.data_size in
      let (got, bytes, left, _, _) =
        status_read d h.status (size ++ rest) s (unfold encode_response in e) in
      let s' = (socket.read_exact d (0 ∷ []) s).2 in
      let more =
        net.read_exact_all ping_old_format_read_timeout (0 ∷ 0 ∷ 0 ∷ 0 ∷ []) s' size rest left
          (unfold u32_to_be_bytes in refl) in
      let back = from-to_be_bytes h.data_size hu in
      (
        ground (arith, got, bytes, more, back),
        λ is_ok. ground (arith, got, bytes, more, back, is_ok),
      )

  -- A peer that closes instead of answering has disconnected.
  pub receive_ping_response_closed :
      (d : ℕ) (s : socket.State)
      → net.pending s ≡ []
      → net.is_closed s ≡ true
      → (receive_ping_response socket d s).0 ≡ err connection_closed
  unfolding receive_ping_response
  receive_ping_response_closed d s e shut =
      let over = net.read_exact_end d (0 ∷ []) s (omega (arith, ap length e)) shut in
      ground (arith, over)
