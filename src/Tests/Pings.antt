-- ===== src/Tests/Pings.antt =====
-- Runs of the ping task and of a server that answers it.
use wagonet.Prelude.{◌≡◌, refl, [], ◌∷◌, ◌++◌, List, arith, true, false, some}
use wagonet.Timeouts.{default_timeout_config}
use wagonet.Socket.Pipe.{pipe_socket, pipe_network, pipe_inlet}
use wagonet.ServerTl.Transfers.{Moved}
use wagonet.Ping.{PingState, Wakeup}
use wagonet.Conversation.Pings.{ping_frames, ping_rounds, ping_rounds_kept}
use wagonet.Tests.Streams.{sending}
use wagonet.Tests.Server.{echo, serving, serving_on}

abbrev running : PingState
running = record {
  last_activity = 0;
  task_handle = some 4;
  should_stop = false;
  config = record { interval = 30; enabled = true };
  timeout_config = default_timeout_config;
  next_task = 5;
  alive = 4 ∷ [];
}

abbrev at_forty : Wakeup
at_forty = record { now = 40; in_flight_free = true }

abbrev at_ninety : Wakeup
at_ninety = record { now = 90; in_flight_free = true }

abbrev wakeups : List Wakeup
wakeups = at_forty ∷ at_ninety ∷ []

ping_rounds_kept_example :
    let s = sending [] false in
    let h = serving echo 0 [] in
    let r = ping_rounds pipe_socket pipe_network pipe_inlet echo wakeups running (some s) h in
    (r.0 ≡ record running { last_activity = 90 })
    × ((s' : pipe_socket.State) × (r.1 ≡ some s')
        × (pipe_network.pending s' ≡ [])
        × (pipe_network.sent s' ≡ pipe_network.sent s ++ ping_frames 2)
        × (pipe_network.is_closed s' ≡ false))
    × (r.2.command_handler ≡ 0)
    × Moved pipe_socket pipe_network h.connection r.2.connection [] (1 ∷ 1 ∷ [])
unfolding pipe_socket pipe_network sending serving_on
ping_rounds_kept_example =
    ping_rounds_kept pipe_socket pipe_network pipe_inlet echo wakeups running (sending [] false)
      (serving echo 0 []) refl (refl, omega arith, (refl, omega arith, tt)) refl refl refl
