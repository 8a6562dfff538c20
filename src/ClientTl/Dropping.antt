-- ===== src/ClientTl/Dropping.antt =====
-- What a failed call leaves of the connection, on any socket.
use wagonet.Prelude.{
  ℕ, zero, suc, ◌+◌, ◌≡◌, refl, true, false, Option, none, some, List, arith, ◌⊎◌, inl, inr,
  Bool-cases, not, ◌||◌,
}
use wagonet.Errors.{Error, Result, ok, err}
use wagonet.Socket.{Socket}
use wagonet.Ping.{Locks}
use wagonet.ClientTl.{
  ClientTl, World, Attempt, connected, refused, attempt_elapsed, total_elapsed, establish,
  connect_loop, connect, is_none, exchange_on, handle_message,
}

-- A computation on a client either leaves it alone, or succeeds with a new connection.
abbrev pub ConnectsOrKeeps :
    (socket : Socket) → Locks → ClientTl socket → Result Error (Unit {0}) × ClientTl socket → Type 0
ConnectsOrKeeps socket locks c r =
    (r.1 ≡ c) ⊎ ((stream : socket.State) × (r ≡ (ok tt, establish socket locks stream c)))

module _ (socket : Socket) where
  connect_loop_cases :
      (left tries : ℕ) (dial : ℕ → ℕ → Attempt socket) (locks : Locks) (c : ClientTl socket)
      → ConnectsOrKeeps socket locks c (connect_loop socket left tries dial locks c)
  unfolding connect_loop
  connect_loop_cases zero tries dial locks c = inl (ground arith)
  connect_loop_cases (suc left) tries dial locks c =
      go (dial c.timeout_config.connect tries) (connect_loop_cases left (tries + 1) dial locks c)
        refl
    where
      go :
          (a : Attempt socket)
          → ConnectsOrKeeps socket locks c (connect_loop socket left (tries + 1) dial locks c)
          → dial c.timeout_config.connect tries ≡ a
          → ConnectsOrKeeps socket locks c (connect_loop socket (suc left) tries dial locks c)
      go (connected stream) rest is = inr (stream, rw (is, connect_loop) refl)
      go (refused e) rest is = rw (is, connect_loop) rest
      go attempt_elapsed rest is = rw (is, connect_loop) rest
      go total_elapsed rest is = inl (rw (is, connect_loop) refl)

  -- Connecting changes the client only when it succeeds: the client is as it was, or it has
  -- a new connection and the call succeeds.
  pub connect_cases :
      (dial : ℕ → ℕ → Attempt socket) (locks : Locks) (c : ClientTl socket)
      → ConnectsOrKeeps socket locks c (connect socket dial locks c)
  unfolding connect
  connect_cases dial locks c = connect_loop_cases 10 0 dial locks c

  exchange_on_drops :
      (w : World socket) (command : ℕ) (message : List ℕ) (s : Option socket.State)
      (c : ClientTl socket) (x : Error)
      → c.stream ≡ s
      → (exchange_on socket w command message s c).0 ≡ err x
      → (exchange_on socket w command message s c).1.stream ≡ none
  unfolding exchange_on
  exchange_on_drops w command message none c x held failed = held
  exchange_on_drops w command message (some s) c x held failed = ground arith

  -- What a call has done: it failed to connect where it had to, or it made its exchange on the
  -- client as it was, or, where it had to connect, on the client with a new connection.
  abbrev pub Went :
      World socket → ℕ → List ℕ → ClientTl socket → Result Error (List ℕ) × ClientTl socket → Type 0
  Went w command message c r =
      (((c.keep_alive ≡ false) ⊎ (c.stream ≡ none)) × ((x : Error) × (r ≡ (err x, c))))
      ⊎ (r ≡ exchange_on socket w command message c.stream c)
      ⊎ (((c.keep_alive ≡ false) ⊎ (c.stream ≡ none))
          × (stream : socket.State) × (r
              ≡ exchange_on socket w command message (some stream)
                  (establish socket w.connect_locks stream c)))

  module _ (w : World socket) (command : ℕ) (message : List ℕ) (c : ClientTl socket) where
    connects :
        ((c.keep_alive ≡ false) ⊎ (c.stream ≡ none))
        → (r : Result Error (Unit {0}) × ClientTl socket)
        → connect socket w.dial w.connect_locks c ≡ r
        → ConnectsOrKeeps socket w.connect_locks c r
        → Went w command message c (handle_message socket w command message c)
    unfolding handle_message establish
    connects need (ok u, c') is (inl kept) = inr (inl (ground arith))
    connects need (err x, c') is (inl kept) = inl (need, (x, ground arith))
    connects need r is (inr (stream, made)) = inr (inr (need, stream, ground arith))

    pub handle_message_cases : Went w command message c (handle_message socket w command message c)
    unfolding handle_message
    handle_message_cases = elim (Bool-cases (not c.keep_alive || is_none socket c.stream)) [
      | inl need ↦
          connects (ground (arith, need)) (connect socket w.dial w.connect_locks c) refl
            (connect_cases w.dial w.connect_locks c)
      | inr settled ↦ inr (inl (ground (arith, settled)))
    ]

  -- On any socket, with keep-alive a call that fails for whatever reason leaves no connection, so
  -- that no later call can read what the failed one left behind.
  pub handle_message_drops :
      (w : World socket) (command : ℕ) (message : List ℕ) (c : ClientTl socket) (x : Error)
      → c.keep_alive ≡ true
      → (handle_message socket w command message c).0 ≡ err x
      → (handle_message socket w command message c).1.stream ≡ none
  handle_message_drops w command message c x alive failed =
      elim (handle_message_cases w command message c) [
        | inl (need, (y, is)) ↦ ground (arith, need, is)
        | inr (inl is) ↦
            rw is (exchange_on_drops w command message c.stream c x refl (rw is at failed))
        | inr (inr (_, stream, is)) ↦ rw is (
            exchange_on_drops w command message (some stream)
              (establish socket w.connect_locks stream c) x (unfold establish in refl)
              (rw is at failed))
      ]
