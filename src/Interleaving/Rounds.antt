-- ===== src/Interleaving/Rounds.antt =====
-- The rounds of the ping task of src/ping.rs as runs of the finer steps of `Interleaving`.
use wagonet.Prelude.{
  ℕ, ◌-◌, ◌<◌, ◌≤◌, ◌≡◌, refl, true, false, Option, none, some, ◌⊎◌, inl, inr, Bool-cases, arith,
}
use wagonet.Socket.{Socket}
use wagonet.Ping.{Wakeup, ping_round, without}
use wagonet.Ping.Tasks.{ping_round_skips, ping_round_pings}
use wagonet.ClientTl.{ClientTl}
use wagonet.Interleaving.{absent}
use wagonet.Interleaving.Views.{
  Run, done, resting, has_task, view, finds_gone-Run, pings-Run, breaks-Run,
}
use wagonet.Interleaving.Messages.{ends-at, Goes}

le-or-lt : (m n : ℕ) → (m ≤ n) ⊎ (n < m)
le-or-lt m n = ground arith

module _ (socket : Socket) where
  abbrev pub after_round : Wakeup → ClientTl socket → ClientTl socket
  after_round w c = record c {
    ping_state = (ping_round socket w c.ping_state c.stream).1;
    stream = (ping_round socket w c.ping_state c.stream).2;
  }

  -- What a round leaves of a view: what was there; and where the task was not told to stop, it may have
  -- pinged on the stream, or lost it and ended.
  abbrev Round : ClientTl socket → ClientTl socket → Type 0
  Round c c' =
      (view socket c' ≡ view socket c)
      ⊎ ((c.ping_state.should_stop ≡ false)
          × (s : socket.State) × (c.stream ≡ some s)
          × (view socket c' ≡ view socket c))
      ⊎ ((c.ping_state.should_stop ≡ false)
          × (view socket c' ≡ resting none true c.keep_alive c.ping_state.config.enabled absent))

  same-view :
      (w : Wakeup) (c : ClientTl socket)
      → ((ping_round socket w c.ping_state c.stream).1 ≡ c.ping_state)
        × ((ping_round socket w c.ping_state c.stream).2 ≡ c.stream)
      → Round c (after_round w c)
  same-view w c (same, same') = inl (rw (same, same') refl)

  pinged-Round :
      (w : Wakeup) (held : Option socket.State) (c : ClientTl socket)
      → c.stream ≡ held
      → c.ping_state.should_stop ≡ false
      → c.ping_state.config.interval ≤ w.now - c.ping_state.last_activity
      → w.in_flight_free ≡ true
      → Round c (after_round w c)
  unfolding ping_round
  pinged-Round w none c is told late free = inr (inr (told, ground arith))
  pinged-Round w (some s) c is told late free =
      elim (ping_round_pings socket w c.ping_state s told late free) [
        | inl (_, went) ↦ inr (inl (told, s, is, ground arith))
        | inr (x, _, went) ↦ inr (inr (told, ground arith))
      ]

  round-Round : (w : Wakeup) (c : ClientTl socket) → Round c (after_round w c)
  round-Round w c = elim (Bool-cases c.ping_state.should_stop) [
    | inl told ↦ same-view w c (ping_round_skips socket w c.ping_state c.stream (inl told))
    | inr on ↦ elim (Bool-cases w.in_flight_free) [
      | inr busy ↦ same-view w c (ping_round_skips socket w c.ping_state c.stream (inr (inr busy)))
      | inl free ↦
          elim (le-or-lt c.ping_state.config.interval (w.now - c.ping_state.last_activity)) [
            | inl late ↦ pinged-Round w c.stream c refl on late free
            | inr early ↦
                same-view w c (ping_round_skips socket w c.ping_state c.stream (inr (inl early)))
          ]
    ]
  ]

  pub round-Goes :
      (w : Wakeup) (c : ClientTl socket)
      → has_task c.ping_state.alive ≡ true
      → Goes socket (view socket c) (after_round w c)
  round-Goes w c there = elim (round-Round w c) [
    | inl same ↦ ends-at same done
    | inr (inl (on, s, is, same)) ↦ ends-at same (pinging s is on)
    | inr (inr (on, lost)) ↦ ends-at lost (loses c.stream refl on)
  ]
    where
      pinging :
          (s : socket.State)
          → c.stream ≡ some s
          → c.ping_state.should_stop ≡ false
          → Run (view socket c) (view socket c)
      pinging s is on = rw (is, on, there) (pings-Run done)

      loses :
          (held : Option socket.State)
          → c.stream ≡ held
          → c.ping_state.should_stop ≡ false
          → Run (view socket c) (resting none true c.keep_alive c.ping_state.config.enabled absent)
      loses none is on = rw (is, on, there) (finds_gone-Run done)
      loses (some s) is on = rw (is, on, there) (breaks-Run done)

  pub ends-Goes :
      (t : ℕ) (c : ClientTl socket)
      → c.ping_state.should_stop ≡ true
      → Goes socket
          (view socket c)
          (record c { ping_state = record (c.ping_state) { alive = without t c.ping_state.alive } })
  ends-Goes t c told = rw told done
