-- ===== src/Conversation.antt =====
-- One exchange seen from both ends: `ClientTL::handle_message` of src/client_tl.rs and
-- `ProtocolHandler::handle_next` of src/protocol_handler.rs on a `ServerTL`.
pub mod Caller
pub mod Hearing
pub mod Pings
pub mod Turns
pub mod Sessions
use wagonet.Prelude.{
  ℕ, ◌≤◌, ◌≡◌, ◌≢◌, refl, ◌∙◌, true, false, some, List, [], ◌∷◌, ◌++◌, append-nil, append_assoc,
  arith, length,
}
use wagonet.Errors.{ok}
use wagonet.Headers.Bytes.{IsU32, as_u32}
use wagonet.Headers.Status.{ok_status, status_code}
use wagonet.Headers.{encode_request, encode_response}
use wagonet.Socket.{Socket}
use wagonet.Socket.Delivery.{Network}
use wagonet.ServerTl.{data_len, is_none}
use wagonet.ServerTl.Transfers.{Moved}
use wagonet.ServerTl.Replies.{reply_header}
use wagonet.Protocol.{CommandHandler, ProtocolHandler, server_tl_transport, handle_next, is_finish}
use wagonet.Protocol.Exchange.{handle_next_serves}
use wagonet.ClientTl.{ClientTl, World, handle_message}
use wagonet.ClientTl.Messages.{request_header}
use wagonet.ClientTl.Exchange.{Kept, handle_message_replies}

-- What each end writes in an exchange that succeeds.
unfoldable pub client_writes : ℕ → List ℕ → List ℕ
client_writes command message =
    (encode_request (request_header command message) [] ++ message) ++ 1 ∷ []

unfoldable pub server_writes : List ℕ → List ℕ
server_writes reply = 1 ∷ reply_header (status_code ok_status) (some reply) ++ reply

pub server_reads :
    (command : ℕ) (message : List ℕ)
    → IsU32 (length message)
    → client_writes command message
      ≡ encode_request (record { command = command; data_size = length message }) []
        ++ (message ++ 1 ∷ [])
unfolding client_writes
server_reads command message small =
    let whole : as_u32 (length message) ≡ length message = omega arith in
    rw (whole, append_assoc) refl

client_reads :
    (reply : List ℕ)
    → IsU32 (length reply)
    → server_writes reply
      ≡ 1
        ∷ (encode_response (record { status = 1; data_size = length reply }) [] false
            ++ (reply ++ []))
unfolding server_writes reply_header data_len is_none status_code
client_reads reply small =
    let whole : as_u32 (length reply) ≡ length reply = omega arith in rw (whole, append-nil) refl

module _ (socket : Socket) (net : Network socket) (handler : CommandHandler) where
  -- On a network that loses nothing, a client in answer mode that keeps an open connection sends a
  -- message with a command other than the ping, each end has still to read just what the other
  -- writes in the exchange, command and sizes are within 32 bits and sizes within the limit of the
  -- end that reads, and the handler replies with status 1. Then the call returns the handler's
  -- reply to the message, the handler has run on the message once, both ends keep the connection,
  -- each has read everything, and has written just what the other reads.
  pub conversation :
      (w : World socket) (command : ℕ) (message reply : List ℕ) (own' : handler.Own)
      (c : ClientTl socket) (stream : socket.State)
      (p : ProtocolHandler (server_tl_transport socket) handler)
      → c.keep_alive ≡ true
      → c.stream ≡ some stream
      → c.command_has_answer ≡ true
      → IsU32 command
      → command ≢ 0
      → IsU32 (length message)
      → IsU32 (length reply)
      → length message ≤ p.connection.max_buffer_size
      → length reply ≤ c.max_buffer_size
      → handler.run command message p.command_handler ≡ (ok (ok_status, reply), own')
      → net.pending stream ≡ server_writes reply
      → net.pending p.connection.stream ≡ client_writes command message
      → ((handle_message socket w command message c).0 ≡ ok reply)
        × Kept socket net w.now stream
            (handle_message socket w command message c).1
            []
            (client_writes command message)
        × ((handle_next (server_tl_transport socket) handler p).0 ≡ ok true)
        × ((handle_next (server_tl_transport socket) handler p).1.command_handler ≡ own')
        × Moved socket net p.connection
            (handle_next (server_tl_transport socket) handler p).1.connection
            []
            (server_writes reply)
  conversation w command message reply own' c stream p alive held answers hc nonzero hm hr fits_m
        fits_r ran at_client at_server =
      let client =
        handle_message_replies socket net w command message reply [] c stream alive held answers hr
          fits_r (at_client ∙ client_reads reply hr) in
      let server =
        handle_next_serves socket net handler command message [] reply ok_status own' p hc hm
          nonzero fits_m (at_server ∙ server_reads command message hm) ran in
      unfold client_writes server_writes in
      (client.0, client.1, server.0 ∙ (unfold is_finish in refl), server.1, server.2)
