-- ===== src/Tests/Examples.antt =====
-- Runs of the programs of examples/.
use wagonet.Prelude.{
  ℕ, zero, suc, ap, ◌+◌, ◌%◌, ◌≡◌, refl, List, [], ◌∷◌, ◌++◌, Option, none, some, inl, inr, arith,
  true, false, length,
}
use wagonet.Errors.{Error, ok}
use wagonet.Headers.Status.{ok_status}
use wagonet.Socket.Pipe.{pipe_socket, pipe_network}
use wagonet.Socket.Reading.{default_max_buffer_size}
use wagonet.ServerTl.Transfers.{Moved}
use wagonet.Protocol.{ProtocolHandler, server_tl_transport}
use wagonet.Connection.{completes, run_loop}
use wagonet.Connection.Sessions.{Request, request_bytes}
use wagonet.Conversation.Caller.{reply_bytes, calls}
use wagonet.Conversation.Sessions.{Holds, plain}
use wagonet.ClientTl.{new}
use wagonet.Examples.Serving.{ping_example, leaves, fails, tcp_loop}
use wagonet.Examples.Pings.{ping_bytes, echo_bytes, serving_loop_pinged, serving_loop_abandoned}
use wagonet.Examples.Echo.{
  Connections, echo_handler, idle, opened, requested, sum, none_yet, open_connection, request,
  Served-total,
}
use wagonet.Examples.EchoSession.{expected, all_expected, IsPlain, echo_session}
use wagonet.Examples.Greeter.{
  Formats, GreetRequest, GreetResponse, GreeterHandler, cmd_greet, times_of, add_u64, get_elem?,
  run, greet_replies,
}
use wagonet.Tests.Streams.{sending}
use wagonet.Tests.Client.{client}
use wagonet.Tests.Server.{serving_on, two_requests, accepted}
use wagonet.Tests.Ends.{worlds}

-- Texts as they are, for the parameters that stand for `String::from_utf8_lossy` and the like.
abbrev as_is : List ℕ → List ℕ
as_is bytes = bytes

serving_loop_pinged_example :
    let s = serving_on (request_bytes two_requests ++ (ping_bytes ++ 9 ∷ [])) in
    let served = tcp_loop pipe_socket as_is ping_example 5 s in
    (served.0 ≡ some leaves)
    × Moved pipe_socket pipe_network s served.1
        (9 ∷ [])
        (echo_bytes pipe_socket as_is ping_example two_requests ++ 1 ∷ [])
unfolding pipe_socket pipe_network serving_on sending
serving_loop_pinged_example =
    serving_loop_pinged pipe_socket pipe_network as_is ping_example two_requests 5 (9 ∷ [])
      (serving_on (request_bytes two_requests ++ (ping_bytes ++ 9 ∷ []))) (omega arith)
      (accepted (5 ∷ 6 ∷ []) (omega arith), (accepted [] (omega arith), tt)) refl

serving_loop_abandoned_example :
    (e : Error) × ((tcp_loop pipe_socket as_is ping_example 1 (serving_on (0 ∷ 0 ∷ []))).0
      ≡ some (fails e))
unfolding pipe_socket pipe_network serving_on sending
serving_loop_abandoned_example =
    serving_loop_abandoned pipe_socket pipe_network as_is ping_example 0 (serving_on (0 ∷ 0 ∷ []))
      (omega arith)

abbrev counts : ℕ → ℕ → List ℕ
counts m n = m ∷ n ∷ []

abbrev busy : Connections
busy =
    request as_is counts 0 1 (7 ∷ [])
      (open_connection (request as_is counts 0 4 [] (open_connection none_yet)))

Served-total_example : busy.total ≡ sum busy.counters % 18446744073709551616
Served-total_example =
    Served-total as_is counts (requested (opened (requested (opened idle) 0 4 [])) 0 1 (7 ∷ []))

-- "Echo" of two bytes, and another two in upper case.
abbrev shouting : List Request
shouting =
    record { command = 1; payload = 5 ∷ 6 ∷ [] } ∷ record { command = 2; payload = 7 ∷ [] } ∷ []

abbrev upper : List ℕ → List ℕ
upper bytes = 65 ∷ bytes

fresh :
    IsPlain upper counts 100 default_max_buffer_size (record { command = 1; payload = 5 ∷ 6 ∷ [] })
unfolding expected
fresh = record {
  accepted = record {
    command_u32 = omega arith;
    size_u32 = omega arith;
    no_ping = omega arith;
    fits = omega arith;
  };
  known = inl refl;
  reply_u32 = omega arith;
  reply_fits = omega arith;
}

louder : IsPlain upper counts 100 default_max_buffer_size (record { command = 2; payload = 7 ∷ [] })
unfolding expected
louder = record {
  accepted = record {
    command_u32 = omega arith;
    size_u32 = omega arith;
    no_ping = omega arith;
    fits = omega arith;
  };
  known = inr refl;
  reply_u32 = omega arith;
  reply_fits = omega arith;
}

abbrev shouted : List ℕ
shouted = reply_bytes (all_expected upper shouting)

abbrev echoing : ProtocolHandler (server_tl_transport pipe_socket) (echo_handler upper counts)
echoing = record {
  connection = serving_on (request_bytes shouting);
  command_handler = record { requests = 3; total_requests = 8 };
}

echo_session_example :
    let user = plain pipe_socket pipe_network default_max_buffer_size worlds in
    let c = client true shouted in
    let served =
      run_loop
        (server_tl_transport pipe_socket)
        (echo_handler upper counts)
        (completes ∷ completes ∷ [])
        echoing in
    ((calls user 0 shouting c).0 ≡ ok (all_expected upper shouting))
    × Holds pipe_socket pipe_network default_max_buffer_size
        (calls user 0 shouting c).1
        []
        (request_bytes shouting)
    × (served.0 ≡ none)
    × (served.1.command_handler.requests ≡ (3 + 2) % 18446744073709551616)
    × Moved pipe_socket pipe_network echoing.connection served.1.connection [] shouted
unfolding pipe_socket pipe_network sending serving_on new
echo_session_example =
    echo_session upper counts 100 default_max_buffer_size pipe_socket pipe_network worlds shouting
      [] (client true shouted) echoing (fresh, (louder, tt))
      (record {
        agreed = refl;
        stream = sending shouted false;
        held = refl;
        pending_left = refl;
        sent_out = refl;
      })
      (omega arith) refl refl

-- A format for responses: each greeting with its bytes one higher and a zero behind it.
abbrev written : List ℕ → List ℕ → List ℕ
written [] rest = 0 ∷ rest
written (b ∷ bytes) rest = suc b ∷ written bytes rest

abbrev all_written : List (List ℕ) → List ℕ
all_written [] = []
all_written (g ∷ gs) = written g (all_written gs)

abbrev onto_first : ℕ → List (List ℕ) → List (List ℕ)
onto_first b [] = (b ∷ []) ∷ []
onto_first b (g ∷ gs) = (b ∷ g) ∷ gs

abbrev read_back : List ℕ → List (List ℕ)
read_back [] = []
read_back (zero ∷ bytes) = [] ∷ read_back bytes
read_back (suc b ∷ bytes) = onto_first b (read_back bytes)

read_back-written :
    (g : List ℕ) (rest : List ℕ) (gs : List (List ℕ))
    → read_back rest ≡ gs
    → read_back (written g rest) ≡ g ∷ gs
read_back-written [] rest gs e = ap (λ l. [] ∷ l) e
read_back-written (b ∷ bytes) rest gs e = ap (onto_first b) (read_back-written bytes rest gs e)

read_back-all_written : (gs : List (List ℕ)) → read_back (all_written gs) ≡ gs
read_back-all_written [] = refl
read_back-all_written (g ∷ gs) = read_back-written g (all_written gs) gs (read_back-all_written gs)

abbrev decode_greeted : List ℕ → Option GreetResponse
decode_greeted [] = none
decode_greeted (total ∷ bytes) =
    some (record { greetings = read_back bytes; total_greetings = total })

-- A request is the number of greetings, then the name.
abbrev decode_greet : List ℕ → Option GreetRequest
decode_greet [] = none
decode_greet (times ∷ name) = some (record { name = name; times = times })

abbrev formats : Formats
formats = record {
  decode_greet = decode_greet;
  decode_stats = λ bytes. some tt;
  encode_greeted = λ r. some (r.total_greetings ∷ all_written r.greetings);
  encode_stats = λ r. some (r.total_requests ∷ []);
  greeting = λ name i. i ∷ name;
}

abbrev host : GreeterHandler
host = record { total_requests = 4; total_greetings = 10 }

greet_replies_example :
    let asked : GreetRequest = record { name = 65 ∷ []; times = 3 } in
    (reply : List ℕ) × (response : GreetResponse) × ((run formats cmd_greet (3 ∷ 65 ∷ []) host).0
      ≡ ok (ok_status, reply))
    × (decode_greeted reply ≡ some response)
    × (length response.greetings ≡ times_of asked)
    × (get_elem? response.greetings 2 ≡ some (3 ∷ 65 ∷ []))
    × (response.total_greetings ≡ add_u64 10 (times_of asked))
    × ((run formats cmd_greet (3 ∷ 65 ∷ []) host).1.total_greetings ≡ response.total_greetings)
    × ((run formats cmd_greet (3 ∷ 65 ∷ []) host).1.total_requests ≡ add_u64 4 1)
greet_replies_example =
    greet_replies formats decode_greeted
      (λ r. (
        _,
        refl,
        ap (λ gs. some (record { greetings = gs; total_greetings = r.total_greetings }))
            (read_back-all_written r.greetings),
      ))
      (3 ∷ 65 ∷ []) (record { name = 65 ∷ []; times = 3 }) 2 host refl
      (unfold times_of in omega arith)
