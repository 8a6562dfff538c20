-- ===== src/Tests/Turns.antt =====
-- A run of both ends in turns.
use wagonet.Prelude.{ℕ, List, ◌≡◌, refl, [], ◌∷◌, arith, true, false, some}
use wagonet.Errors.{ok}
use wagonet.Socket.Pipe.{pipe_socket, pipe_network, pipe_inlet}
use wagonet.ServerTl.Transfers.{Moved}
use wagonet.Protocol.{server_tl_transport, handle_next}
use wagonet.ClientTl.{ClientTl, handle_message, new}
use wagonet.ClientTl.Exchange.{Kept}
use wagonet.Conversation.{client_writes, server_writes}
use wagonet.Conversation.Hearing.{hearing}
use wagonet.Conversation.Turns.{turns}
use wagonet.Conversation.Turns.Completed.{IsReady, exchange_in_turns}
use wagonet.Tests.Streams.{sending}
use wagonet.Tests.Client.{client, world}
use wagonet.Tests.Server.{echo, serving, serving_on}

abbrev message : List ℕ
message = 5 ∷ 6 ∷ []

abbrev turned : ℕ → List ℕ × List ℕ
turned n =
    turns pipe_socket pipe_network pipe_inlet echo (client true []) (sending [] false)
      (serving echo 0 []) 7 message n

ready :
    IsReady pipe_socket pipe_network pipe_inlet echo
      (client true [])
      (sending [] false)
      (serving echo 0 [])
      7
      message
      message
      1
unfolding pipe_socket pipe_network sending serving_on new
ready = record {
  idle = refl;
  silent = refl;
  quiet = refl;
  alive = refl;
  answers = refl;
  command_u32 = omega arith;
  no_ping = ground arith;
  message_u32 = omega arith;
  reply_u32 = omega arith;
  message_fits = omega arith;
  reply_fits = omega arith;
  ran = refl;
}

exchange_in_turns_example :
    let x = (turned 3).0 in
    let y = (turned 3).1 in
    let stream = pipe_inlet.arrive y (sending [] false) in
    let c : ClientTl pipe_socket = record (client true []) { stream = some stream } in
    let p = hearing pipe_socket pipe_network pipe_inlet echo x (serving echo 0 []) in
    let called = handle_message pipe_socket world 7 message c in
    let served = handle_next (server_tl_transport pipe_socket) echo p in
    (turned 3 ≡ (client_writes 7 message, server_writes message))
    × (turned 4 ≡ turned 3)
    × (called.0 ≡ ok message)
    × Kept pipe_socket pipe_network 50 stream called.1 [] x
    × (served.0 ≡ ok true)
    × (served.1.command_handler ≡ 1)
    × Moved pipe_socket pipe_network p.connection served.1.connection [] y
exchange_in_turns_example =
    exchange_in_turns pipe_socket pipe_network pipe_inlet echo (client true []) (sending [] false)
      (serving echo 0 []) 7 message message 1 ready world
