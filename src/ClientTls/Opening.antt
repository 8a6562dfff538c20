-- ===== src/ClientTls/Opening.antt =====
-- How `ClientTLS::connect` of src/client_tls.rs ends: the handshake, and the attempts.
use wagonet.Prelude.{ℕ, zero, suc, ◌+◌, ◌<◌, ◌≡◌, refl, ◌∙◌, false, arith, ◌⊎◌, inl, inr}
use wagonet.Errors.{Error, IoError, Result, ok, err, tls, timeout, text}
use wagonet.Ping.{Locks}
use wagonet.Socket.{Socket}
use wagonet.ClientTls.{
  ClientTls, Network, Attempt, connected, handshake_failed, refused, attempt_elapsed, total_elapsed,
  needs_domain, connect_built, connect_loop, connect, establish,
}

module _ (socket : Socket) where
  -- An attempt behind which the loop goes on.
  abbrev pub Fails : Attempt socket → Type 0
  Fails a = ((e : IoError) × (a ≡ refused e)) ⊎ (a ≡ attempt_elapsed)

  -- An attempt that ends the loop, and how.
  pub data Settles (locks : Locks) (c : ClientTls socket)
      : Attempt socket → Result Error (Unit {0}) × ClientTls socket → Type 0 where
    by_stream :
        (stream : socket.State)
        → Settles locks c (connected stream) (ok tt, establish socket locks stream c)
    by_handshake : (e : ℕ) → Settles locks c (handshake_failed e) (err (tls e), c)
    by_deadline :
        Settles locks c total_elapsed (err (timeout (text "connect total deadline exceeded")), c)

  module _ (dial : ℕ → ℕ → Attempt socket) (locks : Locks) where
    retries :
        (left tries : ℕ) (c : ClientTls socket)
        → Fails (dial c.timeout_config.connect tries)
        → connect_loop socket (suc left) tries dial locks c
          ≡ connect_loop socket left (tries + 1) dial locks c
    unfolding connect_loop
    retries left tries c (inl (e, is)) = rw (is, connect_loop)
    retries left tries c (inr is) = rw (is, connect_loop)

    settles :
        (left tries : ℕ) (c : ClientTls socket) (a : Attempt socket)
        (r : Result Error (Unit {0}) × ClientTls socket)
        → dial c.timeout_config.connect tries ≡ a
        → Settles locks c a r
        → connect_loop socket (suc left) tries dial locks c ≡ r
    unfolding connect_loop
    settles left tries c a r is (by_stream stream) = rw (is, connect_loop) refl
    settles left tries c a r is (by_handshake e) = rw (is, connect_loop) refl
    settles left tries c a r is by_deadline = rw (is, connect_loop) refl

    connect_loop-Settles :
        (k left tries : ℕ) (c : ClientTls socket) (r : Result Error (Unit {0}) × ClientTls socket)
        → k < left
        → ((i : ℕ) → i < k → Fails (dial c.timeout_config.connect (tries + i)))
        → Settles locks c (dial c.timeout_config.connect (tries + k)) r
        → connect_loop socket left tries dial locks c ≡ r
    connect_loop-Settles k zero tries c r room fails ends = absurd (omega arith)
    connect_loop-Settles zero (suc left) tries c r room fails ends =
        let same : tries + 0 ≡ tries = omega arith in
        settles left tries c (dial c.timeout_config.connect tries) r refl (rw same at ends)
    connect_loop-Settles (suc k) (suc left) tries c r room fails ends =
        let first : tries + 0 ≡ tries = omega arith in
        let last : (tries + 1) + k ≡ tries + suc k = omega arith in
        retries left tries c (rw first at (fails 0 (omega arith)))
        ∙ connect_loop-Settles k left (tries + 1) c r (omega arith)
            (λ i h.
              let same : (tries + 1) + i ≡ tries + suc i = omega arith in
              rw same (fails (suc i) (omega arith)))
            (rw last ends)

  -- A client that may connect, with a connector that is built, and ten attempts at most: the first
  -- attempt that neither is refused nor times out ends the call. It succeeds with the new connection
  -- where the handshake is done, fails at once, without another attempt, where the handshake fails,
  -- and fails with a timeout where the overall deadline expires; a failure changes nothing.
  pub connect-Settles :
      (w : Network socket) (locks : Locks) (c : ClientTls socket) (k : ℕ)
      (r : Result Error (Unit {0}) × ClientTls socket)
      → needs_domain socket c ≡ false
      → w.build c.accept_invalid_certs ≡ ok tt
      → k < 10
      → ((i : ℕ)
          → i < k
          → Fails (w.dial c.accept_invalid_certs c.domain c.timeout_config.connect i))
      → Settles locks c (w.dial c.accept_invalid_certs c.domain c.timeout_config.connect k) r
      → connect socket w locks c ≡ r
  unfolding connect connect_built
  connect-Settles w locks c k r named built room fails ends =
      let first : 0 + k ≡ k = omega arith in
      rw (named, built)
        (connect_loop-Settles (w.dial c.accept_invalid_certs c.domain) locks k 10 0 c r room
          (λ i h. let same : 0 + i ≡ i = omega arith in rw same (fails i h)) (rw first ends))
