-- ===== src/Protocol/Stalls.antt =====
-- What src/protocol_handler.rs has sent over TCP when the client's bytes run out inside a request.
use wagonet.Prelude.{
  ℕ, ◌≤◌, ◌<◌, ◌≡◌, ◌≢◌, sym, ap, ◌∙◌, some, List, [], ◌∷◌, ◌++◌, append-nil, append_assoc, arith,
  length,
}
use wagonet.Errors.{ok}
use wagonet.Headers.Bytes.{IsU32, as_u32}
use wagonet.Headers.Status.{ResponseStatus, status_code}
use wagonet.Headers.{RequestHeader, encode_request}
use wagonet.Socket.{Socket}
use wagonet.Socket.Delivery.{Network}
use wagonet.ServerTl.{read_command, receive_data}
use wagonet.ServerTl.Commands.{reply_to_command, read_command_replies}
use wagonet.ServerTl.Replies.{reply_header}
use wagonet.ServerTl.Stalls.{receive_data_stalls, send_data_stalls}
use wagonet.Protocol.{
  CommandHandler, ProtocolHandler, server_tl_transport, handle_next, serve, read_command_u32,
}
use wagonet.Protocol.Exchange.{request_received}

module _ (socket : Socket) (net : Network socket) (handler : CommandHandler) where
  abbrev Handler : Type 0
  Handler = ProtocolHandler (server_tl_transport socket) handler

  abbrev said : Handler → List ℕ
  said p = net.sent p.connection.stream

  module _ (command : ℕ) (payload : List ℕ) (p : Handler) (hc : IsU32 command)
      (hl : IsU32 (length payload)) (nonzero : command ≢ 0)
      (fits : length payload ≤ p.connection.max_buffer_size) where
    abbrev frame : List ℕ
    frame = encode_request (record { command = command; data_size = length payload }) []

    -- Behind a request header the acknowledgement is written, and nothing else while nothing of the
    -- payload has come.
    pub handle_next_says_ack :
        0 < length payload
        → net.pending p.connection.stream ≡ frame
        → said (handle_next (server_tl_transport socket) handler p).1 ≡ said p ++ 1 ∷ []
    unfolding handle_next serve read_command_u32
    handle_next_says_ack pos e =
        let s = p.connection in
        let h : RequestHeader = record { command = command; data_size = length payload } in
        let header = read_command_replies socket net h [] s hc hl (e ∙ sym (append-nil frame)) in
        let promised = reply_to_command h s.max_buffer_size fits nonzero in
        let moved = rw promised at header.1 in
        let t = (read_command socket s).1 in
        let (x, stalls, same) =
          receive_data_stalls socket net (length payload) t moved.pending_left pos
            (omega (arith, fits, moved.same_limit)) in
        let whole : as_u32 (length payload) ≡ length payload = omega arith in
        rw (header.0 ∙ ap (λ q. q.0) promised) (rw whole (rw stalls (same ∙ moved.sent_out)))

    -- Behind a whole request the header of the reply is written too, and nothing else while it is
    -- not acknowledged.
    pub handle_next_says_header :
        (status : ResponseStatus) (reply : List ℕ) (own' : handler.Own)
        → handler.run command payload p.command_handler ≡ (ok (status, reply), own')
        → net.pending p.connection.stream ≡ frame ++ payload
        → said (handle_next (server_tl_transport socket) handler p).1
          ≡ said p ++ 1 ∷ reply_header (status_code status) (some reply)
    unfolding handle_next serve read_command_u32
    handle_next_says_header status reply own' ran e =
        let s = p.connection in
        let (info, body, moved) =
          request_received socket net handler command payload [] s hc hl nonzero fits
            (e ∙ ap (λ b. frame ++ b) (sym (append-nil payload))) in
        let t = (receive_data socket (length payload) (read_command socket s).1).1 in
        let (x, stalls, out) =
          send_data_stalls socket net (status_code status) (some reply) t moved.pending_left in
        let whole : as_u32 (length payload) ≡ length payload = omega arith in
        rw info (
          rw whole (
            rw body (
              rw ran (
                rw stalls (
                  out
                  ∙ ap (λ b. b ++ reply_header (status_code status) (some reply)) moved.sent_out
                  ∙ append_assoc (said p) (1 ∷ [])
                      (reply_header (status_code status) (some reply)))))))
