-- ===== src/Tests/Client.antt =====
-- Runs of the client.
use wagonet.Prelude.{
  ℕ, zero, suc, ◌<◌, ◌≡◌, refl, List, [], ◌∷◌, ◌++◌, arith, true, false, Bool, none, some, inl, inr,
}
use wagonet.Errors.{ok, err, timeout, text, response_error, unexpected_eof}
use wagonet.Headers.{ResponseHeader, encode_request, encode_response}
use wagonet.Headers.Bytes.{u32_to_be_bytes}
use wagonet.Ping.{Locks}
use wagonet.Socket.Pipe.{pipe_socket, pipe_network}
use wagonet.ClientTl.{
  ClientTl, World, Attempt, connected, refused, attempt_elapsed, new, connect, set_keep_alive,
  message_exchange, handle_message,
}
use wagonet.ClientTl.Connecting.{Fails, connect_stale}
use wagonet.ClientTl.Messages.{request_header}
use wagonet.ClientTl.Exchange.{
  Kept, Dropped, handle_message_replies, handle_message_rejected, handle_message_silent,
}
use wagonet.ClientTl.Dropping.{handle_message_drops}
use wagonet.ClientTl.Settings.{IsSound}
use wagonet.ClientTl.Lifetime.{born, lives, message, keeping_alive, Reachable-IsSound}
use wagonet.Tests.Streams.{sending}

abbrev pub free : Locks
free = record { should_stop_free = true; task_handle_free = true }

-- A network where the third attempt reaches a server that sends `bytes`, and one where none does.
abbrev pub third_time : List ℕ → ℕ → ℕ → Attempt pipe_socket
third_time bytes d zero = refused unexpected_eof
third_time bytes d (suc zero) = attempt_elapsed
third_time bytes d (suc (suc n)) = connected (sending bytes false)

third_time-Fails : (bytes : List ℕ) (d i : ℕ) → i < 2 → Fails pipe_socket (third_time bytes d i)
third_time-Fails bytes d zero h = inl (unexpected_eof, refl)
third_time-Fails bytes d (suc zero) h = inr refl
third_time-Fails bytes d (suc (suc i)) h = absurd (omega arith)

abbrev nowhere : ℕ → ℕ → Attempt pipe_socket
nowhere d i = attempt_elapsed

abbrev pub world : World pipe_socket
world = record { dial = nowhere; connect_locks = free; failure_locks = free; now = 50 }

abbrev pub idle : ClientTl pipe_socket
idle = new pipe_socket "localhost:8080" 10

-- A client that keeps a connection on which the server has sent `bytes`.
abbrev pub client : Bool → List ℕ → ClientTl pipe_socket
client answers bytes = record idle {
  stream = some (sending bytes false);
  keep_alive = true;
  command_has_answer = answers;
}

abbrev pub replied : List ℕ
replied = 1 ∷ 1 ∷ 0 ∷ 0 ∷ 0 ∷ 2 ∷ 8 ∷ 9 ∷ 4 ∷ []

handle_message_replies_example :
    let c = client true replied in
    ((handle_message pipe_socket world 7 (5 ∷ []) c).0 ≡ ok (8 ∷ 9 ∷ []))
    × Kept pipe_socket pipe_network 50
        (sending replied false)
        (handle_message pipe_socket world 7 (5 ∷ []) c).1
        (4 ∷ [])
        ((encode_request (request_header 7 (5 ∷ [])) [] ++ 5 ∷ []) ++ 1 ∷ [])
unfolding pipe_socket pipe_network sending encode_response u32_to_be_bytes new
handle_message_replies_example =
    handle_message_replies pipe_socket pipe_network world 7 (5 ∷ []) (8 ∷ 9 ∷ []) (4 ∷ [])
      (client true replied) (sending replied false) refl refl refl (omega arith) (omega arith) refl

abbrev refusal : ResponseHeader
refusal = record { status = 3; data_size = 0 }

abbrev refused_bytes : List ℕ
refused_bytes = 1 ∷ 3 ∷ 0 ∷ 0 ∷ 0 ∷ 0 ∷ 4 ∷ []

rejected_run :
    let c = client true (7 ∷ []) in
    ((handle_message pipe_socket world 7 (5 ∷ []) c).0 ≡ err (response_error 7))
    × Dropped pipe_socket pipe_network world c (handle_message pipe_socket world 7 (5 ∷ []) c).1
    × (pipe_network.sent
          (message_exchange pipe_socket c 7
            (5 ∷ [])
            (record { stream = sending (7 ∷ []) false; buffer = c.buffer })).1.stream
        ≡ pipe_network.sent (sending (7 ∷ []) false)
          ++ encode_request (request_header 7 (5 ∷ [])) [])
unfolding pipe_socket pipe_network sending new
rejected_run =
    handle_message_rejected pipe_socket pipe_network world 7 7 (5 ∷ []) [] (client true (7 ∷ []))
      (sending (7 ∷ []) false) refl refl (ground arith) refl

handle_message_silent_example :
    let c = client false (1 ∷ []) in
    ((handle_message pipe_socket world 7 (5 ∷ []) c).0
      ≡ err (timeout (text "Waiting for response header")))
    × Dropped pipe_socket pipe_network world c (handle_message pipe_socket world 7 (5 ∷ []) c).1
unfolding pipe_socket pipe_network sending new
handle_message_silent_example =
    handle_message_silent pipe_socket pipe_network world 7 (5 ∷ []) (client false (1 ∷ []))
      (sending (1 ∷ []) false) refl refl refl refl refl

connect_stale_example :
    connect pipe_socket nowhere free (client true replied) ≡ (ok tt, client true replied)
connect_stale_example =
    connect_stale pipe_socket nowhere free (client true replied) (sending replied false)
      (λ i. inr refl) refl

handle_message_drops_example :
    (handle_message pipe_socket world 7 (5 ∷ []) (client true (7 ∷ []))).1.stream ≡ none
handle_message_drops_example =
    handle_message_drops pipe_socket world 7 (5 ∷ []) (client true (7 ∷ [])) (response_error 7) refl
      rejected_run.0

Reachable-IsSound_example :
    IsSound pipe_socket
      (handle_message pipe_socket world 7 (5 ∷ []) (set_keep_alive pipe_socket free true idle)).1
Reachable-IsSound_example = Reachable-IsSound pipe_socket (
    lives (lives (born "localhost:8080" 10) (keeping_alive free true refl))
      (message world 7 (5 ∷ []) refl refl))
