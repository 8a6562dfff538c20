-- ===== src/Conversation/Hearing.antt =====
-- What one end of a connection has written, and the other end when it has heard it.
use wagonet.Prelude.{ℕ, ◌≡◌, ap, ◌∙◌, List, ◌++◌, length, drop, drop-append}
use wagonet.Socket.{Socket}
use wagonet.Socket.Delivery.{Network, Inlet}
use wagonet.Protocol.{CommandHandler, ProtocolHandler, server_tl_transport}

module _ (socket : Socket) (net : Network socket) where
  abbrev pub written : socket.State → socket.State → List ℕ
  written before after = drop (length (net.sent before)) (net.sent after)

  pub written_lem :
      (before after : socket.State) (out : List ℕ)
      → net.sent after ≡ net.sent before ++ out
      → written before after ≡ out
  written_lem before after out e =
      ap (λ l. drop (length (net.sent before)) l) e ∙ drop-append (net.sent before) out

module _ (socket : Socket) (net : Network socket) (inlet : Inlet socket net)
    (handler : CommandHandler) where
  unfoldable pub hearing :
      List ℕ
      → ProtocolHandler (server_tl_transport socket) handler
      → ProtocolHandler (server_tl_transport socket) handler
  hearing bytes h = record h {
    connection = record h.connection { stream = inlet.arrive bytes h.connection.stream };
  }
