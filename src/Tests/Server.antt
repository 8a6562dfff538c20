-- ===== src/Tests/Server.antt =====
-- Runs of a server connection.
use wagonet.Prelude.{
  length, ◌⊎◌, All, if◌then◌else◌, ◌==◌, ℕ, suc, ◌+◌, ◌≤◌, ◌≡◌, ◌≢◌, refl, List, [], ◌∷◌, ◌++◌,
  arith, true, false, none, some, not,
}
use wagonet.Errors.{ok, err, not_connected}
use wagonet.Headers.{RequestHeader, encode_request}
use wagonet.Headers.Bytes.{u32_to_be_bytes}
use wagonet.Headers.Status.{ok_status, status_code}
use wagonet.Timeouts.{default_timeout_config}
use wagonet.Socket.Pipe.{pipe_socket, pipe_network}
use wagonet.ServerTl.Reserved.{accepted as accepted_at, limited, reads_command, Serves-in_place}
use wagonet.ServerTl.{ServerTl, new, set_max_buffer_size, read_command}
use wagonet.ServerTl.Transfers.{Moved}
use wagonet.ServerTl.Commands.{reply_to, read_command_replies}
use wagonet.ServerTl.Replies.{reply_header}
use wagonet.Protocol.{CommandHandler, ProtocolHandler, server_tl_transport, handle_next, is_finish}
use wagonet.Protocol.Exchange.{handle_next_serves, handle_next_reports}
use wagonet.Protocol.Safety.{read_command-some}
use wagonet.Connection.{completes, run_loop}
use wagonet.Connection.Sessions.{
  Request, IsAccepted, request_bytes, nothing, answer, run_loop_serves,
}
use wagonet.Server.{
  Tasks, Round, connection, changed, breaks, accept_loop, no_tasks, drain, drained, run,
}
use wagonet.Server
use wagonet.Server.Accepting.{IsTidy, accept_loop-IsTidy, run_unlimited}
use wagonet.Server.Draining.{drain_bounds}
use wagonet.Server.Draining.Longest.{InTime, BehindLongest, drain-BehindLongest}
use wagonet.Tests.Streams.{sending}

unfoldable pub serving_on : List ℕ → ServerTl pipe_socket
serving_on bytes = record {
  stream = sending bytes false;
  buffer = record { items = []; capacity = 100 };
  max_buffer_size = 100;
  timeout_config = default_timeout_config;
}

abbrev request : RequestHeader
request = record { command = 7; data_size = 2 }

abbrev header_bytes : List ℕ
header_bytes = 0 ∷ 0 ∷ 0 ∷ 7 ∷ 0 ∷ 0 ∷ 0 ∷ 2 ∷ []

abbrev ping_bytes : List ℕ
ping_bytes = 0 ∷ 0 ∷ 0 ∷ 0 ∷ 0 ∷ 0 ∷ 0 ∷ 0 ∷ []

read_command_replies_example :
    let s = serving_on (header_bytes ++ 5 ∷ 6 ∷ []) in
    ((read_command pipe_socket s).0 ≡ (reply_to request 100).0)
    × Moved pipe_socket pipe_network s
        (read_command pipe_socket s).1
        (5 ∷ 6 ∷ [])
        (reply_to request 100).1
unfolding pipe_socket pipe_network serving_on sending encode_request u32_to_be_bytes
read_command_replies_example =
    read_command_replies pipe_socket pipe_network request (5 ∷ 6 ∷ [])
      (serving_on (header_bytes ++ 5 ∷ 6 ∷ [])) (omega arith) (omega arith) refl

abbrev limited_to : ServerTl pipe_socket
limited_to =
    (set_max_buffer_size pipe_socket (λ n. true) 100
      (new pipe_socket (sending header_bytes false))).1

Serves-in_place_example :
    (limited_to.max_buffer_size ≤ limited_to.buffer.capacity)
    × ((read_command pipe_socket limited_to).1.buffer.capacity ≡ limited_to.buffer.capacity)
Serves-in_place_example =
    Serves-in_place pipe_socket (limited (λ n. true) 100 (accepted_at (sending header_bytes false)))
      reads_command

-- Two handlers that count their calls: one echoes the payload, one fails.
abbrev pub echo : CommandHandler
echo = record { Own = ℕ; run = λ command payload count. (ok (ok_status, payload), suc count) }

abbrev failing : CommandHandler
failing = record { Own = ℕ; run = λ command payload count. (err not_connected, suc count) }

abbrev pub serving :
    (handler : CommandHandler)
    → handler.Own
    → List ℕ
    → ProtocolHandler (server_tl_transport pipe_socket) handler
serving handler own bytes = record { connection = serving_on bytes; command_handler = own }

abbrev exchange_bytes : List ℕ
exchange_bytes = header_bytes ++ 5 ∷ 6 ∷ 1 ∷ 9 ∷ []

handle_next_serves_example :
    let p = serving echo 0 exchange_bytes in
    ((handle_next (server_tl_transport pipe_socket) echo p).0 ≡ ok (not (is_finish ok_status)))
    × ((handle_next (server_tl_transport pipe_socket) echo p).1.command_handler ≡ 1)
    × Moved pipe_socket pipe_network p.connection
        (handle_next (server_tl_transport pipe_socket) echo p).1.connection
        (9 ∷ [])
        (1 ∷ reply_header (status_code ok_status) (some (5 ∷ 6 ∷ [])) ++ 5 ∷ 6 ∷ [])
unfolding pipe_socket pipe_network serving_on sending encode_request u32_to_be_bytes
handle_next_serves_example =
    handle_next_serves pipe_socket pipe_network echo 7 (5 ∷ 6 ∷ []) (9 ∷ []) (5 ∷ 6 ∷ []) ok_status
      1 (serving echo 0 exchange_bytes) (omega arith) (omega arith) (ground arith) (omega arith)
      refl refl

handle_next_reports_example :
    let p = serving failing 0 exchange_bytes in
    ((handle_next (server_tl_transport pipe_socket) failing p).0 ≡ ok true)
    × ((handle_next (server_tl_transport pipe_socket) failing p).1.command_handler ≡ 1)
    × Moved pipe_socket pipe_network p.connection
        (handle_next (server_tl_transport pipe_socket) failing p).1.connection
        (9 ∷ [])
        (1 ∷ 3 ∷ 0 ∷ 0 ∷ 0 ∷ 0 ∷ [])
unfolding pipe_socket pipe_network serving_on sending encode_request u32_to_be_bytes
handle_next_reports_example =
    handle_next_reports pipe_socket pipe_network failing 7 (5 ∷ 6 ∷ []) (9 ∷ []) not_connected 1
      (serving failing 0 exchange_bytes) (omega arith) (omega arith) (ground arith) (omega arith)
      refl refl

read_command-some_example : (◌≢◌ {A = ℕ} 7 0) × (2 ≤ 100)
unfolding pipe_socket pipe_network serving_on sending encode_request u32_to_be_bytes reply_to
read_command-some_example =
    read_command-some pipe_socket (serving_on (header_bytes ++ 5 ∷ 6 ∷ [])) 7 2
      read_command_replies_example.0

abbrev pub request_for : List ℕ → Request
request_for payload = record { command = 7; payload = payload }

abbrev pub two_requests : List Request
two_requests = request_for (5 ∷ 6 ∷ []) ∷ request_for [] ∷ []

pub accepted : (payload : List ℕ) → length payload ≤ 100 → IsAccepted 100 (request_for payload)
accepted payload fits = record {
  command_u32 = omega arith;
  size_u32 = omega arith;
  no_ping = ground arith;
  fits = fits;
}

abbrev pub reply_bytes : List ℕ → List ℕ
reply_bytes payload = 1 ∷ reply_header (status_code ok_status) (some payload) ++ payload

run_loop_serves_example :
    let p = serving echo 0 (request_bytes two_requests ++ 9 ∷ []) in
    let r = run_loop (server_tl_transport pipe_socket) echo (completes ∷ completes ∷ []) p in
    (r.0 ≡ none)
    × (r.1.command_handler ≡ 2)
    × Moved pipe_socket pipe_network p.connection r.1.connection
        (9 ∷ [])
        (reply_bytes (5 ∷ 6 ∷ []) ++ (reply_bytes [] ++ []))
unfolding pipe_socket pipe_network serving_on sending
run_loop_serves_example =
    run_loop_serves pipe_socket pipe_network echo 100 two_requests (9 ∷ [])
      (reply_bytes (5 ∷ 6 ∷ []) ++ (reply_bytes [] ++ [])) 0 2
      (serving echo 0 (request_bytes two_requests ++ 9 ∷ []))
      (answer (request_for (5 ∷ 6 ∷ [])) ok_status (5 ∷ 6 ∷ [])
        (accepted (5 ∷ 6 ∷ []) (omega arith)) (unfold is_finish in refl) refl
        (answer (request_for []) ok_status [] (accepted [] (omega arith)) (unfold is_finish in refl)
          refl nothing))
      refl refl refl

abbrev arriving : Round
arriving = record {
  lasts_until_retain = λ t. true;
  lasts_until_permit = λ t. true;
  arrival = connection;
}

no_tasks-IsTidy : IsTidy 1 no_tasks
unfolding no_tasks
no_tasks-IsTidy = record { limited = omega arith; held = λ t is. is }

accept_loop-IsTidy_example : IsTidy 1 (accept_loop 1 (arriving ∷ arriving ∷ []) no_tasks).1
accept_loop-IsTidy_example =
    accept_loop-IsTidy 1 (arriving ∷ arriving ∷ []) no_tasks no_tasks-IsTidy

abbrev two_tasks : Tasks
two_tasks = record { handles = 0 ∷ 1 ∷ []; running = 1 ∷ 0 ∷ []; next = 2 }

drain_bounds_example :
    ((drain 10 (λ t. 30) two_tasks).1 ≤ 10)
    × (((drain 10 (λ t. 30) two_tasks).0 ≡ []) ⊎ ((drain 10 (λ t. 30) two_tasks).1 ≡ 10))
    × ((finished : List ℕ) × (two_tasks.handles ≡ finished ++ (drain 10 (λ t. 30) two_tasks).0)
        × All (λ h. 30 ≤ 10) finished)
drain_bounds_example = drain_bounds 10 (λ t. 30) two_tasks

drain-BehindLongest_example :
    BehindLongest (InTime 10 (λ t. 9 + t)) two_tasks.handles (drain 10 (λ t. 9 + t) two_tasks).0
drain-BehindLongest_example = drain-BehindLongest 10 (λ t. 9 + t) two_tasks

-- A drain timeout of zero, documented as waiting forever, aborts every connection at once.
drain_at_zero : drain 0 (λ t. 3) two_tasks ≡ (0 ∷ 1 ∷ [], 0)
unfolding drain
drain_at_zero = refl

-- An identity is its bytes, and is refused where it has none; an acceptor is the number of its bytes.
abbrev pub outside : Server.Outside
outside = record {
  Identity = List ℕ;
  Acceptor = ℕ;
  Factory = ℕ;
  from_pkcs12 = λ identity password. if length identity == 0 then err 1 else ok identity;
  build = λ identity. ok (length identity);
}

abbrev unlimited : Server.Server outside
unlimited = Server.set_max_connections outside 0 (
    Server.set_protocol_command_handler_factory outside 5 (Server.new outside "localhost:8080" 100))

run_unlimited_example : run outside unlimited (ok tt) (arriving ∷ []) (λ t. 3) ≡ drained [] 0
unfolding Server.set_max_connections Server.set_protocol_command_handler_factory Server.new
run_unlimited_example = run_unlimited outside unlimited 5 arriving [] (λ t. 3) refl refl
