-- ===== src/Interleaving/Calls.antt =====
-- The other calls of src/client_tl.rs as runs of the finer steps of `Interleaving`.
use wagonet.Prelude.{
  ℕ, ◌≡◌, refl, ap, Bool, true, false, ◌&&◌, none, List, ◌⊎◌, inl, inr, arith, ltb,
}
use wagonet.Errors.{Error, Result, ok, err}
use wagonet.Timeouts.{validate, with_ping_interval, TimeoutConfig}
use wagonet.Socket.{Socket}
use wagonet.Ping.{Locks, stop_ping_task}
use wagonet.Ping.Tasks.{IsTracked}
use wagonet.ClientTl.{
  ClientTl, World, Attempt, close_if, configure_ping, connect, disconnect,
  handle_message_with_no_answer, set_keep_alive, set_timeout_config, adopt_config,
  set_max_buffer_size,
}
use wagonet.ClientTl.Dropping.{connect_cases}
use wagonet.ClientTl.Settings.{IsSound, same-IsSound}
use wagonet.Interleaving.{absent, ClientStep, by_client}
use wagonet.Interleaving.Views.{done, next, resting, view, connected-Run, disconnects-Run}
use wagonet.Interleaving.Messages.{
  AreFree, ends-at, Goes-by, Goes, establish-view, stop-view, handle_message-Goes,
}

module _ (socket : Socket) where
  pub connect-Goes :
      (dial : ℕ → ℕ → Attempt socket) (locks : Locks) (c : ClientTl socket)
      → AreFree locks
      → IsSound socket c
      → Goes socket (view socket c) (connect socket dial locks c).1
  connect-Goes dial locks c free sound = elim (connect_cases socket dial locks c) [
    | inl kept ↦ ends-at (ap (view socket) kept) done
    | inr (stream, is) ↦ Goes-by socket is (
        ends-at (establish-view socket locks stream c free sound.tracked)
          (connected-Run false (next done (by_client (ClientStep.connects refl)))))
  ]

  pub disconnect-Goes :
      (locks : Locks) (c : ClientTl socket)
      → AreFree locks
      → IsSound socket c
      → Goes socket (view socket c) (disconnect socket locks c).1
  unfolding disconnect
  disconnect-Goes locks c free sound =
      ends-at (stop-view socket locks c free sound.tracked) (disconnects-Run done)

  dropped-view :
      (locks : Locks) (c : ClientTl socket)
      → AreFree locks
      → IsTracked c.ping_state
      → c.keep_alive ≡ true
      → view socket (set_keep_alive socket locks false c) ≡ resting none true false false absent
  unfolding set_keep_alive configure_ping close_if stop_ping_task
  dropped-view locks c free tracked on = ground arith

  kept-view :
      (locks : Locks) (c : ClientTl socket)
      → c.keep_alive ≡ false
      → view socket (set_keep_alive socket locks false c)
        ≡ record (view socket c) { enabled = false }
  unfolding set_keep_alive configure_ping close_if
  kept-view locks c off = ground arith

  pub set_keep_alive-Goes :
      (locks : Locks) (enabled : Bool) (c : ClientTl socket)
      → AreFree locks
      → IsSound socket c
      → Goes socket (view socket c) (set_keep_alive socket locks enabled c)
  unfolding set_keep_alive configure_ping close_if
  set_keep_alive-Goes locks true c free sound =
      next done (by_client (ClientStep.enables (ltb 0 c.ping_state.config.interval) refl))
  set_keep_alive-Goes locks false c free sound = go c.keep_alive refl
    where
      go :
          (b : Bool)
          → c.keep_alive ≡ b
          → Goes socket (view socket c) (set_keep_alive socket locks false c)
      go true on = ends-at (dropped-view locks c free sound.tracked on) (
          next (next done (by_client (ClientStep.disables refl on)))
            (by_client (ClientStep.switches_off refl refl)))
      go false off =
          ends-at (kept-view locks c off) (next done (by_client (ClientStep.stays_off refl off)))

  set_timeout_config-view :
      (t : TimeoutConfig) (c : ClientTl socket)
      → (view socket (set_timeout_config socket t c).1 ≡ view socket c)
        ⊎ (view socket (set_timeout_config socket t c).1 ≡ record (view socket c) {
          enabled = c.keep_alive && ltb 0 (with_ping_interval t t.ping_interval).ping_interval;
        })
  unfolding set_timeout_config adopt_config
  set_timeout_config-view t c = go (validate (with_ping_interval t t.ping_interval)) refl
    where
      go :
          (v : Result Error (Unit {0}))
          → validate (with_ping_interval t t.ping_interval) ≡ v
          → (view socket (set_timeout_config socket t c).1 ≡ view socket c)
            ⊎ (view socket (set_timeout_config socket t c).1 ≡ record (view socket c) {
              enabled = c.keep_alive && ltb 0 (with_ping_interval t t.ping_interval).ping_interval;
            })
      go (ok u) is = inr (ground arith)
      go (err x) is = inl (ground arith)

  pub set_timeout_config-Goes :
      (t : TimeoutConfig) (c : ClientTl socket)
      → Goes socket (view socket c) (set_timeout_config socket t c).1
  set_timeout_config-Goes t c = elim (set_timeout_config-view t c) [
    | inl kept ↦ ends-at kept done
    | inr set ↦ ends-at set (next done (by_client (ClientStep.configures _ refl)))
  ]

  pub quiet-Goes :
      (w : World socket) (command : ℕ) (bytes : List ℕ) (c : ClientTl socket)
      → AreFree w.connect_locks
      → AreFree w.failure_locks
      → IsSound socket c
      → Goes socket (view socket c) (handle_message_with_no_answer socket w command bytes c).1
  unfolding handle_message_with_no_answer
  quiet-Goes w command bytes c free free' sound =
      let c0 = record c { command_has_answer = false } in
      handle_message-Goes socket w command bytes c0 free free'
        (same-IsSound socket c c0 refl refl refl sound.tracked sound)

  pub size-view :
      (can_reserve : ℕ → Bool) (size : ℕ) (c : ClientTl socket)
      → view socket (set_max_buffer_size socket can_reserve size c).1 ≡ view socket c
  unfolding set_max_buffer_size
  size-view can_reserve size c = ground arith
