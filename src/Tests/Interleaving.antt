-- ===== src/Tests/Interleaving.antt =====
-- Runs of the client of src/client_tl.rs with its ping task of src/ping.rs.
use wagonet.Prelude.{◌≤◌, ◌≡◌, refl, true, false, none, some, [], ◌∷◌, ◌⊎◌, inr}
use wagonet.Interleaving.{
  client, task, idle, wants_in_flight, exchanging, sleeping, absent, pinging, State, ClientStep,
  TaskStep, by_client, by_task, Reach, later,
}
use wagonet.Interleaving.Locks.{exchange_undisturbed}
use wagonet.Interleaving.Answers.{
  CalmReach, fresh, and_then, CalmReach-Reach, answers_read, connect_strays,
}
use wagonet.Interleaving.Progress.{is_waiting, GoesOn, TaskMoves, rounds_left, no_deadlock}
use wagonet.Socket.Pipe.{pipe_socket}
use wagonet.Ping
use wagonet.Ping.{Wakeup, stop_ping_task, start_ping_task, abort}
use wagonet.ClientTl.{
  ClientTl, new, connect, close_if, configure_ping, connect_loop, establish, start_if,
  set_keep_alive, handle_message,
}
use wagonet.ClientTl.Lifetime.{message, connecting, keeping_alive, round}
use wagonet.Interleaving.Views.{view, has_task}
use wagonet.Interleaving.Rounds.{after_round}
use wagonet.Interleaving.Refinement.{made, goes, Lives-Reach}
use wagonet.Tests.Client.{free, third_time, replied, world}

-- The owner has turned keep-alive on and calls `handle_message`, which has connected.
abbrev asking : State
asking = record {
  stream = some 0;
  stream_lock = none;
  in_flight = none;
  should_stop = false;
  keep_alive = true;
  enabled = true;
  client_pc = wants_in_flight;
  task_pc = sleeping;
}

asking-CalmReach : CalmReach asking
asking-CalmReach =
    let a = and_then fresh (by_client (ClientStep.enables true refl)) tt in
    let b = and_then a (by_client (ClientStep.dials refl (inr (refl, refl)))) tt in
    let c = and_then b (by_client (ClientStep.stores refl refl)) tt in
    let d = and_then c (by_client (ClientStep.stops refl)) tt in
    and_then d (by_client (ClientStep.starts refl refl)) tt

-- The client is in its first exchange.
abbrev asked : State
asked = record asking { stream_lock = some client; in_flight = some client; client_pc = exchanging }

asked-CalmReach : CalmReach asked
asked-CalmReach =
    let a = and_then asking-CalmReach (by_client (ClientStep.enters refl refl)) tt in
    and_then a (by_client (ClientStep.locks refl refl refl)) tt

exchange_undisturbed_example :
    (asked.in_flight ≡ some client)
    × (asked.stream_lock ≡ some client)
    × ((asked.task_pc ≡ absent) ⊎ (asked.task_pc ≡ sleeping))
    × ¬ ((t : State) × TaskStep asked t)
exchange_undisturbed_example = exchange_undisturbed (CalmReach-Reach asked-CalmReach) refl

-- A ping was sent and answered between the two exchanges of a connection.
asked_again : CalmReach asked
asked_again =
    let a = and_then asked-CalmReach (by_client (ClientStep.succeeds refl)) tt in
    let b = and_then a (by_client (ClientStep.reuses refl refl refl refl)) tt in
    let c = and_then b (by_task (TaskStep.claims refl refl refl)) tt in
    let d = and_then c (by_task (TaskStep.takes refl refl refl)) tt in
    let e = and_then d (by_task (TaskStep.sends refl refl)) tt in
    let f = and_then e (by_task (TaskStep.hears refl refl)) tt in
    let g = and_then f (by_client (ClientStep.enters refl refl)) tt in
    and_then g (by_client (ClientStep.locks refl refl refl)) tt

answers_read_example : asked.stream ≡ some 0
answers_read_example = answers_read asked_again refl

-- The first exchange is over.
abbrev rested : State
rested = record asking { client_pc = idle }

rested-Reach : Reach rested
rested-Reach = later (CalmReach-Reach asked-CalmReach) (by_client (ClientStep.succeeds refl))

connect_strays_example :
    (t : State) × Reach t
    × (t.client_pc ≡ exchanging)
    × (t.stream ≡ some 1)
    × (t.task_pc ≡ sleeping)
connect_strays_example = connect_strays rested-Reach refl refl refl refl refl refl refl

-- The client waits for `in_flight`, which the task has for a ping.
abbrev waiting : State
waiting = record asking { stream_lock = some task; in_flight = some task; task_pc = pinging }

waiting-Reach : Reach waiting
waiting-Reach =
    let a = later (CalmReach-Reach asking-CalmReach) (by_task (TaskStep.claims refl refl refl)) in
    later a (by_task (TaskStep.takes refl refl refl))

no_deadlock_example :
    ((is_waiting waiting ≡ false) × GoesOn waiting)
    ⊎ ((is_waiting waiting ≡ true)
        × TaskMoves waiting
        × (rounds_left waiting.task_pc ≤ 3)
        × ¬ (
            (t : State) × TaskStep waiting t
            × (rounds_left waiting.task_pc ≤ rounds_left t.task_pc)))
no_deadlock_example = no_deadlock waiting-Reach

-- A round of the ping task behind a long sleep, on a client that has connected.
abbrev late : Wakeup
late = record { now = 100000000000; in_flight_free = true }

abbrev kept : ClientTl pipe_socket
kept =
    (connect pipe_socket (third_time replied) free
      (set_keep_alive pipe_socket free true (new pipe_socket "localhost:8080" 10))).1

kept-has_task : has_task kept.ping_state.alive ≡ true
unfolding connect set_keep_alive new close_if configure_ping connect_loop establish start_if
    stop_ping_task start_ping_task abort Ping.new
kept-has_task = refl

Lives-Reach_example : Reach (
    view pipe_socket
      (handle_message pipe_socket world 7 (5 ∷ []) (after_round pipe_socket late kept)).1)
Lives-Reach_example = Lives-Reach pipe_socket (
    goes
      (goes
        (goes (goes (made "localhost:8080" 10) (keeping_alive free true refl) (refl, refl))
          (connecting (third_time replied) free refl) (refl, refl))
        (round late) kept-has_task)
      (message world 7 (5 ∷ []) refl refl) ((refl, refl), (refl, refl)))
