-- ===== src/Interleaving/Refinement.antt =====
-- The whole life of a client, whose calls and ping rounds run to their end in `ClientTl` and `Ping`, as
-- a run of the finer steps of `Interleaving`.
use wagonet.Prelude.{ℕ, ◌≡◌, refl, true, String}
use wagonet.Socket.{Socket}
use wagonet.Ping
use wagonet.Ping.{
  PingState, Locks, Wakeup, ping_round, stop_ping_task, start_ping_task, touch_activity, without,
}
use wagonet.ClientTl.{ClientTl, new, set_command_has_answer}
use wagonet.ClientTl.Settings.{IsSound}
use wagonet.ClientTl.Lifetime
use wagonet.ClientTl.Lifetime.{
  Reachable, Reachable-IsSound, born, lives, message, quiet_message, connecting, disconnecting,
  keeping_alive, timing, sizing, answering, round, task_ends,
}
use wagonet.Interleaving.{Reach, start, initial}
use wagonet.Interleaving.Views.{done, has_task, view, Run-Reach}
use wagonet.Interleaving.Messages.{AreFree, ends-at, Goes, handle_message-Goes}
use wagonet.Interleaving.Calls.{
  connect-Goes, disconnect-Goes, set_keep_alive-Goes, set_timeout_config-Goes, quiet-Goes,
  size-view,
}
use wagonet.Interleaving.Rounds.{round-Goes, ends-Goes}

module _ (socket : Socket) where
  new-view : (address : String) (now : ℕ) → view socket (new socket address now) ≡ initial
  unfolding new Ping.new
  new-view address now = refl

  -- A step in which `stop_ping_task` finds its locks free, a round is one of a task that is there, and
  -- a task that ends was told to stop.
  abbrev pub IsUndisturbed : {c c' : ClientTl socket} → Lifetime.Step socket c c' → Type 0
  IsUndisturbed (message w _ _ _ _) = AreFree w.connect_locks × AreFree w.failure_locks
  IsUndisturbed (quiet_message w _ _ _ _) = AreFree w.connect_locks × AreFree w.failure_locks
  IsUndisturbed (connecting _ locks _) = AreFree locks
  IsUndisturbed (disconnecting locks _) = AreFree locks
  IsUndisturbed (keeping_alive locks _ _) = AreFree locks
  IsUndisturbed (timing _) = Unit
  IsUndisturbed (sizing _ _) = Unit
  IsUndisturbed (answering _) = Unit
  IsUndisturbed (round _ {c}) = has_task c.ping_state.alive ≡ true
  IsUndisturbed (task_ends _ {c}) = c.ping_state.should_stop ≡ true

  pub Step-Goes :
      {c c' : ClientTl socket} (step : Lifetime.Step socket c c')
      → IsUndisturbed step
      → IsSound socket c
      → Goes socket (view socket c) c'
  Step-Goes (message w command bytes {c} _ _) (free, free') sound =
      handle_message-Goes socket w command bytes c free free' sound
  Step-Goes (quiet_message w command bytes {c} _ _) (free, free') sound =
      quiet-Goes socket w command bytes c free free' sound
  Step-Goes (connecting dial locks {c} _) free sound = connect-Goes socket dial locks c free sound
  Step-Goes (disconnecting locks {c} _) free sound = disconnect-Goes socket locks c free sound
  Step-Goes (keeping_alive locks enabled {c} _) free sound =
      set_keep_alive-Goes socket locks enabled c free sound
  Step-Goes (timing t {c}) _ sound = set_timeout_config-Goes socket t c
  Step-Goes (sizing can_reserve size {c}) _ sound =
      ends-at (size-view socket can_reserve size c) done
  Step-Goes (answering answer {c}) _ sound = unfold set_command_has_answer in done
  Step-Goes (round w {c}) there sound = round-Goes socket w c there
  Step-Goes (task_ends t {c}) told sound = ends-Goes socket t c told

  pub data Lives : ClientTl socket → Type 0 where
    made : (address : String) (now : ℕ) → Lives (new socket address now)
    goes :
        {c c' : ClientTl socket}
        → Lives c
        → (step : Lifetime.Step socket c c') → IsUndisturbed step
        → Lives c'

  Lives-Reachable : {c : ClientTl socket} → Lives c → Reachable socket c
  Lives-Reachable (made address now) = born address now
  Lives-Reachable (goes l step undisturbed) = lives (Lives-Reachable l) step

  -- Of every client that was made by `new`, whatever calls, ping rounds and endings of ping tasks
  -- happened to it since, where `stop_ping_task` found its locks free, a round was one of a task that
  -- was there, and a task that ended was told to stop: the state that it is in, seen as a stream on
  -- which no answer to a ping is to come, free locks, its flags, and a ping task that sleeps or has
  -- ended, is one that the finer steps of the client and of its ping task reach.
  pub Lives-Reach : {c : ClientTl socket} → Lives c → Reach (view socket c)
  Lives-Reach (made address now) = rw (new-view address now) start
  Lives-Reach (goes l step undisturbed) =
      Run-Reach (Lives-Reach l)
        (Step-Goes step undisturbed (Reachable-IsSound socket (Lives-Reachable l)))
