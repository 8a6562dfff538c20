-- ===== src/Tests/Ends.antt =====
-- Runs of both ends together.
use wagonet.Prelude.{ℕ, List, ◌++◌, none, ◌≡◌, refl, [], ◌∷◌, arith, true, false}
use wagonet.Errors.{ok}
use wagonet.Socket.Pipe.{pipe_socket, pipe_network}
use wagonet.ServerTl.Transfers.{Moved}
use wagonet.Protocol.{server_tl_transport}
use wagonet.ClientTl.{World, new}
use wagonet.Connection.{completes, run_loop}
use wagonet.Connection.Sessions.{request_bytes}
use wagonet.Socket.Reading.{default_max_buffer_size}
use wagonet.Conversation.Caller.{reply_bytes, Replies, replying, silent, calls}
use wagonet.Conversation.Sessions.{Holds, plain, secured, session, secured_session}
use wagonet.ClientTls
use wagonet.ClientTls.Connecting.{as_tl}
use wagonet.Protocol.Tls.{server_tls_transport}
use wagonet.Tests.Secure.{secure_on, secure_handler}
use wagonet.Tests.SecureClient.{holding, world as secure_world}
use wagonet.Tests.Streams.{sending}
use wagonet.Tests.Client.{client, world}
use wagonet.Tests.Server.{echo, serving, serving_on, two_requests, request_for, accepted}

abbrev two_replies : List (List ℕ)
two_replies = (5 ∷ 6 ∷ []) ∷ [] ∷ []

-- What the echoing handler promises of the two requests.
two_promised : Replies echo 100 default_max_buffer_size 0 two_requests 2 two_replies
two_promised =
    replying (request_for (5 ∷ 6 ∷ [])) (5 ∷ 6 ∷ []) (accepted (5 ∷ 6 ∷ []) (omega arith))
      (omega arith) (omega arith) refl
      (replying (request_for []) [] (accepted [] (omega arith)) (omega arith) (omega arith) refl
        silent)

abbrev pub worlds : ℕ → World pipe_socket
worlds k = world

session_example :
    let c = client true (reply_bytes two_replies) in
    let p = serving echo 0 (request_bytes two_requests) in
    let served = run_loop (server_tl_transport pipe_socket) echo (completes ∷ completes ∷ []) p in
    let user = plain pipe_socket pipe_network default_max_buffer_size worlds in
    ((calls user 0 two_requests c).0 ≡ ok two_replies)
    × Holds pipe_socket pipe_network default_max_buffer_size
        (calls user 0 two_requests c).1
        []
        (request_bytes two_requests)
    × (served.0 ≡ none)
    × (served.1.command_handler ≡ 2)
    × Moved pipe_socket pipe_network p.connection served.1.connection [] (reply_bytes two_replies)
unfolding pipe_socket pipe_network sending serving_on new
session_example =
    session pipe_socket pipe_network default_max_buffer_size echo 100 worlds 0 2 two_requests
      two_replies [] (client true (reply_bytes two_replies))
      (serving echo 0 (request_bytes two_requests)) two_promised
      (record {
        agreed = refl;
        stream = sending (reply_bytes two_replies) false;
        held = refl;
        pending_left = refl;
        sent_out = refl;
      })
      refl refl refl

abbrev secure_worlds : ℕ → ClientTls.World pipe_socket
secure_worlds k = secure_world

secured_session_example :
    let c = holding (reply_bytes two_replies) false in
    let p = secure_handler (request_bytes two_requests) in
    let served = run_loop (server_tls_transport pipe_socket) echo (completes ∷ completes ∷ []) p in
    let user = secured pipe_socket pipe_network default_max_buffer_size secure_worlds in
    ((calls user 0 two_requests c).0 ≡ ok two_replies)
    × Holds pipe_socket pipe_network default_max_buffer_size
        (as_tl pipe_socket (calls user 0 two_requests c).1)
        []
        (request_bytes two_requests)
    × (served.0 ≡ none)
    × (served.1.command_handler ≡ 2)
    × (pipe_network.pending served.1.connection.tls_stream ≡ [])
    × (pipe_network.sent served.1.connection.tls_stream
        ≡ pipe_network.sent p.connection.tls_stream ++ reply_bytes two_replies)
unfolding pipe_socket pipe_network sending secure_on ClientTls.new ClientTls.set_domain
secured_session_example =
    secured_session pipe_socket pipe_network default_max_buffer_size echo 100 secure_worlds 0 2
      two_requests two_replies [] (holding (reply_bytes two_replies) false)
      (secure_handler (request_bytes two_requests)) two_promised
      (record {
        agreed = refl;
        stream = sending (reply_bytes two_replies) false;
        held = refl;
        pending_left = refl;
        sent_out = refl;
      })
      refl refl refl
