-- ===== src/Interleaving/Messages.antt =====
-- `handle_message` of src/client_tl.rs, which runs to its end in `ClientTl`, as a run of the finer steps
-- of `Interleaving`.
use wagonet.Prelude.{
  ℕ, ◌≡◌, refl, ap, Bool, true, false, not, ◌&&◌, Option, none, some, List, ◌⊎◌, inl, inr, arith,
}
use wagonet.Errors.{Error, Result, ok, err}
use wagonet.Socket.{Socket}
use wagonet.Ping.{PingState, Locks, stop_ping_task, start_ping_task, touch_activity}
use wagonet.Ping.Tasks.{IsTracked, stop_ping_task_clears}
use wagonet.ClientTl.{
  ClientTl, World, establish, conclude, exchange_on, message_exchange, handle_message,
}
use wagonet.ClientTl.Settings.{IsSound, establish-IsSound}
use wagonet.ClientTl.Locked.{Link}
use wagonet.ClientTl.Dropping.{handle_message_cases}
use wagonet.Interleaving.{wants_in_flight, absent, State}
use wagonet.Interleaving.Views.{
  Run, done, resting, seat, owing, view, reuses-Run, falls_back-Run, dials-Run, gives_up-Run,
  connected-Run, succeeds-Run, fails-Run,
}

-- Both `try_lock` calls of `stop_ping_task` find their lock free.
abbrev pub AreFree : Locks → Type 0
AreFree locks = (locks.should_stop_free ≡ true) × (locks.task_handle_free ≡ true)

stop_ping_task_tells :
    (locks : Locks) (p : PingState) → AreFree locks → (stop_ping_task locks p).should_stop ≡ true
unfolding stop_ping_task
stop_ping_task_tells locks p (free, _) = ground arith

pub ends-at : {s t u : State} → u ≡ t → Run s t → Run s u
ends-at e run = rw e run

module _ (socket : Socket) where
  pub establish-view :
      (locks : Locks) (stream : socket.State) (c : ClientTl socket)
      → AreFree locks
      → IsTracked c.ping_state
      → let starts = c.keep_alive && c.ping_state.config.enabled in
        view socket (establish socket locks stream c)
        ≡ resting (some 0) (not starts) c.keep_alive c.ping_state.config.enabled (seat starts)
  unfolding establish stop_ping_task start_ping_task
  establish-view locks stream c (free, free') tracked =
      let (gone, _) = stop_ping_task_clears locks c.ping_state free' tracked in ground arith

  pub stop-view :
      (locks : Locks) (c : ClientTl socket)
      → AreFree locks
      → IsTracked c.ping_state
      → view socket (record c { stream = none; ping_state = stop_ping_task locks c.ping_state })
        ≡ resting none true c.keep_alive c.ping_state.config.enabled absent
  unfolding stop_ping_task
  stop-view locks c free tracked = ground arith

  -- The state behind a successful `connect` within `handle_message`, and the state in which
  -- a message is sent.
  abbrev called : ClientTl socket → State
  called c = record (view socket c) { client_pc = wants_in_flight }

  conclude-Run :
      {s : State} (w : World socket) (r : Result Error (List ℕ)) (link : Link socket)
      (stream : socket.State) (c : ClientTl socket)
      → AreFree w.failure_locks
      → IsTracked c.ping_state
      → c.stream ≡ some stream
      → Run s (called c)
      → Run s (view socket (conclude socket w r link c).1)
  unfolding conclude touch_activity
  conclude-Run w (ok response) link stream c free tracked held run = succeeds-Run (rw held at run)
  conclude-Run w (err e) link stream c free tracked held run =
      ends-at (stop-view w.failure_locks c free tracked) (fails-Run (rw held at run))

  exchange_on-Run :
      {s : State} (w : World socket) (command : ℕ) (bytes : List ℕ) (stream : socket.State)
      (c : ClientTl socket)
      → AreFree w.failure_locks
      → IsTracked c.ping_state
      → c.stream ≡ some stream
      → Run s (called c)
      → Run s (view socket (exchange_on socket w command bytes (some stream) c).1)
  unfolding exchange_on
  exchange_on-Run w command bytes stream c free tracked held run =
      let r =
        message_exchange socket c command bytes (record { stream = stream; buffer = c.buffer }) in
      conclude-Run w r.0 r.1 stream c free tracked held run

  -- A message on the connection that is there.
  reused-Run :
      (w : World socket) (command : ℕ) (bytes : List ℕ) (held : Option socket.State)
      (c : ClientTl socket)
      → AreFree w.failure_locks
      → IsTracked c.ping_state
      → c.stream ≡ held
      → Run (view socket c) (view socket (exchange_on socket w command bytes held c).1)
  unfolding exchange_on
  reused-Run w command bytes none c free tracked is = done
  reused-Run w command bytes (some stream) c free tracked is =
      exchange_on-Run w command bytes stream c free tracked is (reaches c.keep_alive refl)
    where
      reaches : (b : Bool) → c.keep_alive ≡ b → Run (view socket c) (called c)
      reaches true on = rw (is, on) (reuses-Run done)
      reaches false off = rw (is, off) (falls_back-Run done)

  nothing :
      (c : ClientTl socket)
      → (c.keep_alive ≡ false) ⊎ (c.stream ≡ none)
      → (c.keep_alive ≡ false) ⊎ (owing socket c.stream ≡ none)
  nothing c (inl off) = inl off
  nothing c (inr gone) = inr (ap (owing socket) gone)

  connected-called :
      (locks : Locks) (stream : socket.State) (c : ClientTl socket)
      → AreFree locks
      → IsTracked c.ping_state
      → (c.keep_alive ≡ false) ⊎ (c.stream ≡ none)
      → Run (view socket c) (called (establish socket locks stream c))
  connected-called locks stream c free tracked need =
      ends-at
        (ap {A = State} (λ s. record s { client_pc = wants_in_flight })
          (establish-view locks stream c free tracked))
        (connected-Run true (dials-Run (nothing c need) done))

  abbrev pub Goes : State → ClientTl socket → Type 0
  Goes s c = Run s (view socket c)

  pub Goes-by :
      {A : Type 0} {s : State} {r r' : A × ClientTl socket}
      → r ≡ r'
      → Run s (view socket r'.1)
      → Goes s r.1
  Goes-by {A} is run = ends-at (ap {A = A × ClientTl socket} (λ r. view socket r.1) is) run

  pub handle_message-Goes :
      (w : World socket) (command : ℕ) (bytes : List ℕ) (c : ClientTl socket)
      → AreFree w.connect_locks
      → AreFree w.failure_locks
      → IsSound socket c
      → Goes (view socket c) (handle_message socket w command bytes c).1
  handle_message-Goes w command bytes c free free' sound =
      elim (handle_message_cases socket w command bytes c) [
        | inl (need, (_, is)) ↦ Goes-by is (gives_up-Run (dials-Run (nothing c need) done))
        | inr (inl is) ↦ Goes-by is (reused-Run w command bytes c.stream c free' sound.tracked refl)
        | inr (inr (need, stream, is)) ↦ Goes-by is (
            exchange_on-Run w command bytes stream (establish socket w.connect_locks stream c) free'
              (establish-IsSound socket w.connect_locks stream c free.1 sound).tracked
              (unfold establish in refl)
              (connected-called w.connect_locks stream c free sound.tracked need))
      ]
