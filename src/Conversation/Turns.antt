-- ===== src/Conversation/Turns.antt =====
-- One exchange of src/client_tl.rs and src/protocol_handler.rs in which nothing is sent in advance:
-- each end hears only what the other has written. What the client writes.
pub mod Completed
use wagonet.Prelude.{
  ℕ, zero, suc, ◌≤◌, ◌≡◌, refl, ap, ◌∙◌, true, false, some, List, [], ◌∷◌, ◌++◌, arith, length,
}
use wagonet.Headers.Bytes.{IsU32, as_u32}
use wagonet.Headers.Status.{ok_status, status_code}
use wagonet.Headers.{encode_request}
use wagonet.Socket.{Socket}
use wagonet.Socket.Delivery.{Network, Inlet}
use wagonet.ServerTl.{data_len, is_none}
use wagonet.ServerTl.Replies.{reply_header}
use wagonet.Protocol.{CommandHandler, ProtocolHandler, server_tl_transport, handle_next}
use wagonet.ClientTl.{ClientTl, message_exchange}
use wagonet.ClientTl.Messages.{request_header}
use wagonet.ClientTl.Stalls.{exchange_says_header, exchange_says_message, exchange_says_all}
use wagonet.Conversation.{client_writes}
use wagonet.Conversation.Hearing.{written, written_lem, hearing}

module _ (socket : Socket) (net : Network socket) (inlet : Inlet socket net)
    (handler : CommandHandler) (c : ClientTl socket) (stream : socket.State)
    (p : ProtocolHandler (server_tl_transport socket) handler) (command : ℕ)
    (message : List ℕ) where
  -- All that the client has written in the exchange when it has heard `heard` and no more.
  unfoldable pub client_says : List ℕ → List ℕ
  client_says heard =
      written socket net stream
        (message_exchange socket c command message
          (record { stream = inlet.arrive heard stream; buffer = c.buffer })).1.stream

  -- All that the server has written.
  unfoldable pub server_says : List ℕ → List ℕ
  server_says heard =
      written socket net p.connection.stream
        (handle_next (server_tl_transport socket) handler
          (hearing socket net inlet handler heard p)).1.connection.stream

  -- The client hears what the server has written so far, and the server what the client has written
  -- then.
  unfoldable pub turn : List ℕ × List ℕ → List ℕ × List ℕ
  turn (x, y) = (client_says y, server_says (client_says y))

  unfoldable pub turns : ℕ → List ℕ × List ℕ
  turns zero = ([], [])
  turns (suc n) = turn (turns n)

  pub turn_lem :
      (before : List ℕ × List ℕ) (x y : List ℕ)
      → client_says before.1 ≡ x
      → server_says x ≡ y
      → turn before ≡ (x, y)
  unfolding turn
  turn_lem before x y e f = rw (e, f) refl

  abbrev pub asked : List ℕ
  asked = encode_request (request_header command message) []

  module _ (idle : net.pending stream ≡ []) (silent : net.is_closed stream ≡ false)
      (answers : c.command_has_answer ≡ true) where
    heard_is : (bytes : List ℕ) → net.pending (inlet.arrive bytes stream) ≡ bytes
    heard_is bytes = inlet.arrive_pending bytes stream ∙ ap (λ l. l ++ bytes) idle

    client_says_lem :
        (heard out : List ℕ)
        → net.sent
            (message_exchange socket c command message
              (record { stream = inlet.arrive heard stream; buffer = c.buffer })).1.stream
          ≡ net.sent (inlet.arrive heard stream) ++ out
        → client_says heard ≡ out
    unfolding client_says
    client_says_lem heard out e =
        written_lem socket net stream
          (message_exchange socket c command message
            (record { stream = inlet.arrive heard stream; buffer = c.buffer })).1.stream
          out (e ∙ ap (λ l. l ++ out) (inlet.arrive_sent heard stream))

    pub client_first : client_says [] ≡ asked
    client_first = client_says_lem [] asked (
        exchange_says_header socket net c command message
          (record { stream = inlet.arrive [] stream; buffer = c.buffer }) (heard_is [])
          (inlet.arrive_open [] stream ∙ silent))

    pub client_second : client_says (1 ∷ []) ≡ asked ++ message
    client_second = client_says_lem (1 ∷ []) (asked ++ message) (
        exchange_says_message socket net c command message
          (record { stream = inlet.arrive (1 ∷ []) stream; buffer = c.buffer }) (heard_is (1 ∷ []))
          (inlet.arrive_open (1 ∷ []) stream ∙ silent) answers)

    pub client_third :
        (reply rest : List ℕ)
        → IsU32 (length reply)
        → length reply ≤ c.max_buffer_size
        → client_says (1 ∷ (reply_header (status_code ok_status) (some reply) ++ rest))
          ≡ client_writes command message
    unfolding reply_header data_len is_none status_code client_writes
    client_third reply rest small fits =
        let heard = 1 ∷ (reply_header (status_code ok_status) (some reply) ++ rest) in
        let whole : as_u32 (length reply) ≡ length reply = omega arith in
        client_says_lem heard ((asked ++ message) ++ 1 ∷ []) (
          exchange_says_all socket net c command message
            (record { stream = inlet.arrive heard stream; buffer = c.buffer }) (length reply) rest
            small fits answers (heard_is heard ∙ rw whole refl))
