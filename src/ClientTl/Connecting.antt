-- ===== src/ClientTl/Connecting.antt =====
-- The connect loop, and which connection `handle_message` uses.
use wagonet.Prelude.{
  ℕ, zero, suc, ◌+◌, ◌<◌, ◌≡◌, refl, ◌∙◌, true, false, none, some, List, arith, ◌⊎◌, inl, inr,
}
use wagonet.Errors.{IoError, ok, err, from_str}
use wagonet.Ping.{Locks}
use wagonet.Socket.{Socket}
use wagonet.ClientTl.{
  ClientTl, Attempt, connected, refused, attempt_elapsed, World, connect_loop, connect, establish,
  exchange_on, handle_message,
}

module _ (socket : Socket) where
  -- An attempt that ends in an error or in its own timeout.
  abbrev pub Fails : Attempt socket → Type 0
  Fails a = ((e : IoError) × (a ≡ refused e)) ⊎ (a ≡ attempt_elapsed)

  module _ (dial : ℕ → ℕ → Attempt socket) (locks : Locks) where
    connect_loop_retry :
        (left tries : ℕ) (c : ClientTl socket)
        → Fails (dial c.timeout_config.connect tries)
        → connect_loop socket (suc left) tries dial locks c
          ≡ connect_loop socket left (tries + 1) dial locks c
    unfolding connect_loop
    connect_loop_retry left tries c (inl (e, is)) = rw (is, connect_loop)
    connect_loop_retry left tries c (inr is) = rw (is, connect_loop)

    connect_loop_lem :
        (k left tries : ℕ) (stream : socket.State) (c : ClientTl socket)
        → k < left
        → ((i : ℕ) → i < k → Fails (dial c.timeout_config.connect (tries + i)))
        → dial c.timeout_config.connect (tries + k) ≡ connected stream
        → connect_loop socket left tries dial locks c ≡ (ok tt, establish socket locks stream c)
    connect_loop_lem k zero tries stream c room fails reaches = absurd (omega arith)
    connect_loop_lem zero (suc left) tries stream c room fails reaches =
        let same : tries + 0 ≡ tries = omega arith in
        unfold connect_loop in rw (rw same at reaches, connect_loop) refl
    connect_loop_lem (suc k) (suc left) tries stream c room fails reaches =
        let first : tries + 0 ≡ tries = omega arith in
        let last : (tries + 1) + k ≡ tries + suc k = omega arith in
        connect_loop_retry left tries c (rw first at (fails 0 (omega arith)))
        ∙ connect_loop_lem k left (tries + 1) stream c (omega arith)
            (λ i h.
              let same : (tries + 1) + i ≡ tries + suc i = omega arith in
              rw same (fails (suc i) (omega arith)))
            (rw last reaches)

    -- The client connects on the first of the ten attempts that reaches the server, where each
    -- attempt before it fails or times out.
    pub connect_lem :
        (k : ℕ) (stream : socket.State) (c : ClientTl socket)
        → k < 10
        → ((i : ℕ) → i < k → Fails (dial c.timeout_config.connect i))
        → dial c.timeout_config.connect k ≡ connected stream
        → connect socket dial locks c ≡ (ok tt, establish socket locks stream c)
    unfolding connect
    connect_lem k stream c room fails reaches =
        let same : 0 + k ≡ k = omega arith in
        connect_loop_lem k 10 0 stream c room
          (λ i h. let same_i : 0 + i ≡ i = omega arith in rw same_i (fails i h)) (rw same reaches)

    connect_loop_exhausted :
        (left tries : ℕ) (c : ClientTl socket)
        → ((i : ℕ) → Fails (dial c.timeout_config.connect i))
        → connect_loop socket left tries dial locks c
          ≡ connect_loop socket zero (tries + left) dial locks c
    connect_loop_exhausted zero tries c fails =
        let same : tries + 0 ≡ tries = omega arith in rw same refl
    connect_loop_exhausted (suc left) tries c fails =
        let same : (tries + 1) + left ≡ tries + suc left = omega arith in
        connect_loop_retry left tries c (fails tries)
        ∙ connect_loop_exhausted left (tries + 1) c fails
        ∙ rw same refl

    -- Where every attempt fails or times out and no connection is held, the call fails and changes
    -- nothing.
    pub connect_unreachable :
        (c : ClientTl socket)
        → ((i : ℕ) → Fails (dial c.timeout_config.connect i))
        → c.stream ≡ none
        → connect socket dial locks c ≡ (err (from_str "Connection error, max retries reached"), c)
    unfolding connect
    connect_unreachable c fails absent =
        connect_loop_exhausted 10 0 c fails ∙ unfold connect_loop in ground arith

    -- Where every attempt fails or times out but an earlier connection is still held, the call
    -- succeeds, and the client goes on with the earlier connection.
    pub connect_stale :
        (c : ClientTl socket) (old : socket.State)
        → ((i : ℕ) → Fails (dial c.timeout_config.connect i))
        → c.stream ≡ some old
        → connect socket dial locks c ≡ (ok tt, c)
    unfolding connect
    connect_stale c old fails held =
        connect_loop_exhausted 10 0 c fails ∙ unfold connect_loop in ground arith

  module _ (w : World socket) (command : ℕ) (message : List ℕ) (c : ClientTl socket) where
    -- With keep-alive an open connection is used as it is.
    pub handle_message_reuse :
        (stream : socket.State)
        → c.keep_alive ≡ true
        → c.stream ≡ some stream
        → handle_message socket w command message c
          ≡ exchange_on socket w command message (some stream) c
    unfolding handle_message
    handle_message_reuse stream alive open_stream = ground arith

    -- Otherwise the client connects first, and uses the new connection.
    pub handle_message_connect :
        (stream : socket.State)
        → (c.keep_alive ≡ false) ⊎ (c.stream ≡ none)
        → connect socket w.dial w.connect_locks c
          ≡ (ok tt, establish socket w.connect_locks stream c)
        → handle_message socket w command message c
          ≡ exchange_on socket w command message
              (some stream)
              (establish socket w.connect_locks stream c)
    unfolding handle_message establish
    handle_message_connect stream need done = ground arith
