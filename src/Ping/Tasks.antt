-- ===== src/Ping/Tasks.antt =====
-- The rounds of the ping task, and how many ping tasks there are.
use wagonet.Prelude.{
  ℕ, ◌-◌, ◌≤◌, ◌<◌, ◌≡◌, refl, ◌⊎◌, inl, inr, true, false, Option, none, some, [], ◌∷◌, arith, ◌==◌,
  Bool-cases,
}
use wagonet.Errors.{Error, Result, ok, err}
use wagonet.Timeouts.{from_millis}
use wagonet.Socket.{Socket}
use wagonet.Socket.Delivery.{Network}
use wagonet.Ping.Replies.{exchange_ping_lem}
use wagonet.Ping.{
  PingState, Locks, Wakeup, again, stop, check_interval, ping_round, ping_now, after_ping,
  exchange_ping, stop_ping_task, start_ping_task, without,
}

-- A round never sleeps less than 100 ms, and with an interval of 100 ms or more never longer than
-- the interval.
pub check_interval_bounds :
    (interval : ℕ)
    → (from_millis 100 ≤ check_interval interval)
      × (from_millis 100 ≤ interval → check_interval interval ≤ interval)
unfolding check_interval
check_interval_bounds interval = (ground arith, λ h. ground arith)

module _ (socket : Socket) (w : Wakeup) (p : PingState) where
  -- A round that is told to stop, that comes before the interval is over, or that finds a request
  -- in flight touches neither the stream nor the shared state.
  pub ping_round_skips :
      (stream : Option socket.State)
      → (p.should_stop ≡ true)
        ⊎ (w.now - p.last_activity < p.config.interval)
        ⊎ (w.in_flight_free ≡ false)
      → ((ping_round socket w p stream).1 ≡ p) × ((ping_round socket w p stream).2 ≡ stream)
  unfolding ping_round
  ping_round_skips none (inl told) = ground arith
  ping_round_skips none (inr (inl early)) = ground arith
  ping_round_skips none (inr (inr busy)) = ground arith
  ping_round_skips (some s) (inl told) = ground arith
  ping_round_skips (some s) (inr (inl early)) = ground arith
  ping_round_skips (some s) (inr (inr busy)) = ground arith

  -- A round that is due pings on the open connection: on success the task goes on, on any failure it
  -- ends and leaves the client disconnected.
  pub ping_round_pings :
      (s : socket.State)
      → p.should_stop ≡ false
      → p.config.interval ≤ w.now - p.last_activity
      → w.in_flight_free ≡ true
      → let e = exchange_ping socket p.timeout_config.read_header s in
        ((e.0 ≡ ok tt)
          × (ping_round socket w p (some s)
              ≡ (again, record p { last_activity = w.now }, some e.1)))
        ⊎ ((x : Error) × (e.0 ≡ err x)
            × (ping_round socket w p (some s) ≡ (stop, record p { should_stop = true }, none)))
  unfolding ping_round
  ping_round_pings s told late free =
      go (exchange_ping socket p.timeout_config.read_header s).0 refl
    where
      go :
          (r : Result Error (Unit {0}))
          → (exchange_ping socket p.timeout_config.read_header s).0 ≡ r
          → (((exchange_ping socket p.timeout_config.read_header s).0 ≡ ok tt)
              × (ping_round socket w p (some s) ≡ (
                again,
                record p { last_activity = w.now },
                some (exchange_ping socket p.timeout_config.read_header s).1,
              )))
            ⊎ ((x : Error) × ((exchange_ping socket p.timeout_config.read_header s).0 ≡ err x)
                × (ping_round socket w p (some s) ≡ (stop, record p { should_stop = true }, none)))
      go (ok u) e = inl (e, ground arith)
      go (err x) e = inr (x, e, ground arith)

  -- A round that is due and whose ping is answered by the byte 1.
  pub ping_round_answered :
      (net : Network socket) (s : socket.State)
      → p.should_stop ≡ false
      → p.config.interval ≤ w.now - p.last_activity
      → w.in_flight_free ≡ true
      → net.pending s ≡ 1 ∷ []
      → net.is_closed s ≡ false
      → ping_round socket w p (some s) ≡ (
        again,
        record p { last_activity = w.now },
        some (exchange_ping socket p.timeout_config.read_header s).1,
      )
  unfolding ping_round
  ping_round_answered net s told late free e silent =
      let done = exchange_ping_lem socket net p.timeout_config.read_header s e silent in
      ground (arith, done.0)

-- What a round leaves of the ping state.
abbrev pub Keeps : PingState → PingState → Type 0
Keeps p p' =
    (p'.config ≡ p.config)
    × (p'.timeout_config ≡ p.timeout_config)
    × (p'.alive ≡ p.alive)
    × (p'.task_handle ≡ p.task_handle)

module _ (socket : Socket) (w : Wakeup) (p : PingState) where
  after_ping-Keeps :
      (r : Result Error (Unit {0})) (s : socket.State) → Keeps p (after_ping socket w r s p).1
  unfolding after_ping
  after_ping-Keeps (ok u) s = (refl, refl, refl, refl)
  after_ping-Keeps (err x) s = (refl, refl, refl, refl)

  ping_now-Keeps : (stream : Option socket.State) → Keeps p (ping_now socket w p stream).1
  unfolding ping_now
  ping_now-Keeps none = (refl, refl, refl, refl)
  ping_now-Keeps (some s) =
      let e = exchange_ping socket p.timeout_config.read_header s in after_ping-Keeps e.0 e.1

  -- A round of the ping task leaves the settings and the tasks alone.
  pub ping_round-Keeps : (stream : Option socket.State) → Keeps p (ping_round socket w p stream).1
  unfolding ping_round
  ping_round-Keeps stream =
      let (same_config, same_timeouts, same_alive, same_handle) = ping_now-Keeps stream in
      (
        ground (arith, same_config),
        ground (arith, same_timeouts),
        ground (arith, same_alive),
        ground (arith, same_handle),
      )

-- No ping task is alive, or just the one whose handle is held.
abbrev pub IsTracked : PingState → Type 0
IsTracked p = (p.alive ≡ []) ⊎ ((t : ℕ) × (p.task_handle ≡ some t) × (p.alive ≡ t ∷ []))

without_self : (t : ℕ) → without t (t ∷ []) ≡ []
unfolding without
without_self t = ground arith

-- Where no ping task is alive or just the one whose handle is held, stopping with the handle's lock
-- free leaves no task and no handle.
pub stop_ping_task_clears :
    (locks : Locks) (p : PingState)
    → locks.task_handle_free ≡ true
    → IsTracked p
    → ((stop_ping_task locks p).alive ≡ []) × ((stop_ping_task locks p).task_handle ≡ none)
unfolding stop_ping_task without
stop_ping_task_clears locks p free tracked = ground arith

pub start_ping_task-IsTracked : (p : PingState) → p.alive ≡ [] → IsTracked (start_ping_task p)
unfolding start_ping_task
start_ping_task-IsTracked p none_alive = elim (Bool-cases p.config.enabled) [
  | inl on ↦ inr (p.next_task, ground (arith, on), ground (arith, on, none_alive))
  | inr off ↦ inl (ground (arith, off, none_alive))
]

pub without-IsTracked :
    (t : ℕ) (p : PingState) → IsTracked p → IsTracked (record p { alive = without t p.alive })
unfolding without
without-IsTracked t p (inl gone) = inl (ground (arith, gone))
without-IsTracked t p (inr (u, held, only)) = elim (Bool-cases (u == t)) [
  | inl same ↦ inl (ground (arith, only, same))
  | inr other ↦ inr (u, held, ground (arith, only, other))
]

-- Stopping and starting the task leave its settings alone.
pub stop_ping_task-settings :
    (locks : Locks) (p : PingState)
    → ((stop_ping_task locks p).config ≡ p.config)
      × ((stop_ping_task locks p).timeout_config ≡ p.timeout_config)
unfolding stop_ping_task
stop_ping_task-settings locks p = (ground arith, ground arith)

pub start_ping_task-settings :
    (p : PingState)
    → ((start_ping_task p).config ≡ p.config)
      × ((start_ping_task p).timeout_config ≡ p.timeout_config)
unfolding start_ping_task
start_ping_task-settings p = (ground arith, ground arith)
