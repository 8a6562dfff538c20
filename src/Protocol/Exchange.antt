-- ===== src/Protocol/Exchange.antt =====
-- A whole request and its response over TCP, on a network that loses nothing.
use wagonet.Prelude.{
  ℕ, ◌≤◌, ◌≡◌, ◌≢◌, refl, ap, ◌∙◌, true, not, some, List, [], ◌∷◌, ◌++◌, append-nil, arith, length,
}
use wagonet.Errors.{Error, ok, err}
use wagonet.Headers.Bytes.{IsU32, as_u32, u32_to_be_bytes}
use wagonet.Headers.Status.{ResponseStatus, error, status_code}
use wagonet.Headers.{RequestHeader, encode_request, encode_response}
use wagonet.Socket.{Socket}
use wagonet.Socket.Delivery.{Network}
use wagonet.ServerTl.{ServerTl, read_command, receive_data}
use wagonet.ServerTl.Transfers.{Moved, Moved-trans, receive_data_all}
use wagonet.ServerTl.Commands.{reply_to_command, reply_to_ping, read_command_replies}
use wagonet.ServerTl.Replies.{reply_header, payload_of, send_data_acknowledged}
use wagonet.Protocol.{
  CommandHandler, ProtocolHandler, server_tl_transport, handle_next, serve, is_finish,
  read_command_u32,
}

module _ (socket : Socket) (net : Network socket) (handler : CommandHandler) where
  abbrev Handler : Type 0
  Handler = ProtocolHandler (server_tl_transport socket) handler

  -- `t` is the connection once the request `command`, `payload` is read and accepted.
  pub request_received :
      (command : ℕ) (payload rest : List ℕ) (s : ServerTl socket)
      → IsU32 command
      → IsU32 (length payload)
      → command ≢ 0
      → length payload ≤ s.max_buffer_size
      → net.pending s.stream
        ≡ encode_request (record { command = command; data_size = length payload }) []
          ++ (payload ++ rest)
      → ((read_command socket s).0 ≡ ok (some (command, length payload)))
        × ((receive_data socket (length payload) (read_command socket s).1).0 ≡ ok payload)
        × Moved socket net s
            (receive_data socket (length payload) (read_command socket s).1).1
            rest
            (1 ∷ [])
  request_received command payload rest s hc hl nonzero fits e =
      let h : RequestHeader = record { command = command; data_size = length payload } in
      let header = read_command_replies socket net h (payload ++ rest) s hc hl e in
      let promised = reply_to_command h s.max_buffer_size fits nonzero in
      let moved : Moved socket net s (read_command socket s).1 (payload ++ rest) (1 ∷ []) =
        rw promised at header.1 in
      let body =
        receive_data_all socket net payload rest (read_command socket s).1 moved.pending_left
          (omega (arith, moved.same_limit)) in
      (
        header.0 ∙ ap (λ p. p.0) promised,
        body.0,
        rw append-nil at (Moved-trans socket net (payload ++ rest) rest (1 ∷ []) [] moved body.1),
      )

  -- On a network that loses nothing, for a request with a command other than the ping, fields
  -- within 32 bits, a payload within the limit, an acknowledgement of the reply behind it, and a
  -- handler that returns a status and a reply: the handler is run once on just that payload, the
  -- client is sent the acknowledgement of the header, the five-byte header with the handler's
  -- status and the reply, and the connection stays open unless the status is Finish.
  pub handle_next_serves :
      (command : ℕ) (payload rest reply : List ℕ) (status : ResponseStatus) (own' : handler.Own)
      → (p : ProtocolHandler (server_tl_transport socket) handler) → IsU32 command
      → IsU32 (length payload)
      → command ≢ 0
      → length payload ≤ p.connection.max_buffer_size
      → net.pending p.connection.stream
        ≡ encode_request (record { command = command; data_size = length payload }) []
          ++ (payload ++ 1 ∷ rest)
      → handler.run command payload p.command_handler ≡ (ok (status, reply), own')
      → ((handle_next (server_tl_transport socket) handler p).0 ≡ ok (not (is_finish status)))
        × ((handle_next (server_tl_transport socket) handler p).1.command_handler ≡ own')
        × Moved socket net p.connection
            (handle_next (server_tl_transport socket) handler p).1.connection
            rest
            (1 ∷ reply_header (status_code status) (some reply) ++ reply)
  unfolding handle_next serve read_command_u32
  handle_next_serves command payload rest reply status own' p hc hl nonzero fits e ran =
      let (info, body, moved) =
        request_received command payload (1 ∷ rest) p.connection hc hl nonzero fits e in
      let s = p.connection in
      let t = (receive_data socket (length payload) (read_command socket s).1).1 in
      let sent =
        send_data_acknowledged socket net (status_code status) (some reply) rest t
          moved.pending_left in
      let whole : as_u32 (length payload) ≡ length payload = omega arith in
      rw info (
        rw whole (
          rw body (
            rw ran (
              rw sent.0 (
                refl,
                refl,
                unfold payload_of in
                    Moved-trans socket net (1 ∷ rest) rest (1 ∷ [])
                      (reply_header (status_code status) (some reply) ++ reply) moved sent.1,
              )))))

  -- On a network that loses nothing, where the handler fails on a request with a command other than
  -- the ping, fields within 32 bits and a payload within the limit, and the client acknowledges:
  -- the client is sent the acknowledgement of the header and a five-byte header of status 3 with no
  -- payload, and the connection stays open for the next request.
  pub handle_next_reports :
      (command : ℕ) (payload rest : List ℕ) (x : Error) (own' : handler.Own)
      → (p : ProtocolHandler (server_tl_transport socket) handler) → IsU32 command
      → IsU32 (length payload)
      → command ≢ 0
      → length payload ≤ p.connection.max_buffer_size
      → net.pending p.connection.stream
        ≡ encode_request (record { command = command; data_size = length payload }) []
          ++ (payload ++ 1 ∷ rest)
      → handler.run command payload p.command_handler ≡ (err x, own')
      → ((handle_next (server_tl_transport socket) handler p).0 ≡ ok true)
        × ((handle_next (server_tl_transport socket) handler p).1.command_handler ≡ own')
        × Moved socket net p.connection
            (handle_next (server_tl_transport socket) handler p).1.connection
            rest
            (1 ∷ 3 ∷ 0 ∷ 0 ∷ 0 ∷ 0 ∷ [])
  unfolding handle_next serve read_command_u32
  handle_next_reports command payload rest x own' p hc hl nonzero fits e ran =
      let (info, body, moved) =
        request_received command payload (1 ∷ rest) p.connection hc hl nonzero fits e in
      let s = p.connection in
      let t = (receive_data socket (length payload) (read_command socket s).1).1 in
      let sent =
        send_data_acknowledged socket net (status_code error) (some []) rest t moved.pending_left in
      let whole : as_u32 (length payload) ≡ length payload = omega arith in
      rw info (
        rw whole (
          rw body (
            rw ran (
              refl,
              refl,
              unfold payload_of reply_header encode_response u32_to_be_bytes status_code in
                  Moved-trans socket net (1 ∷ rest) rest (1 ∷ []) (3 ∷ 0 ∷ 0 ∷ 0 ∷ 0 ∷ []) moved
                    sent.1,
            ))))

  -- On a network that loses nothing, a ping is answered by the one byte 1, the connection stays
  -- open, and the command handler does not see the ping.
  pub handle_next_ping :
      (rest : List ℕ) (p : ProtocolHandler (server_tl_transport socket) handler)
      → net.pending p.connection.stream
        ≡ encode_request (record { command = 0; data_size = 0 }) [] ++ rest
      → ((handle_next (server_tl_transport socket) handler p).0 ≡ ok true)
        × ((handle_next (server_tl_transport socket) handler p).1.command_handler
            ≡ p.command_handler)
        × Moved socket net p.connection
            (handle_next (server_tl_transport socket) handler p).1.connection
            rest
            (1 ∷ [])
  unfolding handle_next serve read_command_u32
  handle_next_ping rest p e =
      let h : RequestHeader = record { command = 0; data_size = 0 } in
      let s = p.connection in
      let header = read_command_replies socket net h rest s (omega arith) (omega arith) e in
      let promised = reply_to_ping h s.max_buffer_size (omega arith) refl refl in
      rw (header.0 ∙ ap (λ q. q.0) promised) (refl, refl, rw promised at header.1)
