-- ===== src/ClientTls/Connecting.antt =====
-- `connect` of src/client_tls.rs beside that of src/client_tl.rs, on the network that stands behind the
-- TLS handshake.
use wagonet.Prelude.{
  Bool-cases, inl, inr, ℕ, zero, suc, ◌+◌, ◌≡◌, refl, leb, ◌&&◌, false, Option, none, some, arith,
  if◌then◌else◌,
}
use wagonet.Errors.{Error, Result, ok, err, text, timeout}
use wagonet.Action.Mirroring.{MirrorsAt, if-MirrorsAt}
use wagonet.Timeouts.{default_max_connect_retries}
use wagonet.Ping.{Locks}
use wagonet.Socket.{Socket}
use wagonet.ClientTl as Tl
use wagonet.ClientTl.{ClientTl}
use wagonet.ClientTls as Tls
use wagonet.ClientTls.{
  ClientTls, Network, Attempt, connected, handshake_failed, refused, attempt_elapsed, total_elapsed,
  needs_domain, unbox,
}

module _ (socket : Socket) where
  -- What the TLS client shares with the plain one.
  abbrev pub as_tl : ClientTls socket → ClientTl socket
  as_tl c = record {
    address = c.address;
    stream = c.tls_stream;
    command_has_answer = c.command_has_answer;
    buffer = c.buffer;
    max_buffer_size = c.max_buffer_size;
    timeout_config = c.timeout_config;
    keep_alive = c.keep_alive;
    ping_state = c.ping_state;
  }

  -- A failed handshake ends the call of `connect`, as the overall deadline does.
  unfoldable pub as_attempt : Attempt socket → Tl.Attempt socket
  as_attempt (connected stream) = Tl.connected stream
  as_attempt (handshake_failed e) = Tl.total_elapsed
  as_attempt (refused e) = Tl.refused e
  as_attempt attempt_elapsed = Tl.attempt_elapsed
  as_attempt total_elapsed = Tl.total_elapsed

  unfoldable pub dial_built :
      Result ℕ (Unit {0}) → (ℕ → ℕ → Attempt socket) → ℕ → ℕ → Tl.Attempt socket
  unfolding as_attempt
  dial_built (ok u) dial t n = as_attempt (dial t n)
  dial_built (err e) dial t n = Tl.total_elapsed

  -- The network that a TLS client sees, as a network of the plain client: where the settings do not
  -- let it connect, its first attempt ends the call.
  unfoldable pub as_dial : Network socket → ClientTls socket → ℕ → ℕ → Tl.Attempt socket
  unfolding dial_built
  as_dial w c t n =
      if needs_domain socket c
      then Tl.total_elapsed
      else dial_built (w.build c.accept_invalid_certs) (w.dial c.accept_invalid_certs c.domain) t n

  abbrev pub as_world : Tls.World socket → (ℕ → ℕ → Tl.Attempt socket) → Tl.World socket
  as_world w dial = record {
    dial = dial;
    connect_locks = w.connect_locks;
    failure_locks = w.failure_locks;
    now = w.now;
  }

  -- The two computations leave the same client, and succeed with the same value or fail.
  abbrev pub Same :
      {A : Type 0} → Result Error A × ClientTls socket → Result Error A × ClientTl socket → Type 0
  Same x y = MirrorsAt as_tl (λ e f. Unit {0}) x y

  pub both_fail :
      {A : Type 0} (x y : Error) (c : ClientTls socket) → Same {A = A} (err x, c) (err y, as_tl c)
  both_fail x y c = record { result_at = tt; object_at = refl }

  pub is_none-same : (s : Option socket.State) → Tls.is_none socket s ≡ Tl.is_none socket s
  unfolding Tls.is_none Tl.is_none
  is_none-same none = refl
  is_none-same (some s) = refl

  establish-as_tl :
      (locks : Locks) (stream : socket.State) (c : ClientTls socket)
      → as_tl (Tls.establish socket locks stream c) ≡ Tl.establish socket locks stream (as_tl c)
  unfolding Tls.establish Tl.establish Tls.start_if Tl.start_if
  establish-as_tl locks stream c = ground arith

  connect_loop-Same :
      (left tries : ℕ) (dial : ℕ → ℕ → Attempt socket) (locks : Locks) (c : ClientTls socket)
      → Same
          (Tls.connect_loop socket left tries dial locks c)
          (Tl.connect_loop socket left tries (λ t n. as_attempt (dial t n)) locks (as_tl c))
  unfolding Tls.connect_loop Tl.connect_loop as_attempt
  connect_loop-Same zero tries dial locks c = rw (is_none-same c.tls_stream) (
      if-MirrorsAt (Tl.is_none socket c.tls_stream && leb default_max_connect_retries tries)
        (both_fail _ _ c) (record { result_at = refl; object_at = refl }))
  connect_loop-Same (suc left) tries dial locks c =
      go (dial c.timeout_config.connect tries) refl
        (connect_loop-Same left (tries + 1) dial locks c)
    where
      go :
          (a : Attempt socket)
          → dial c.timeout_config.connect tries ≡ a
          → Same (Tls.connect_loop socket left (tries + 1) dial locks c) (
              Tl.connect_loop socket left
                (tries + 1)
                (λ t n. as_attempt (dial t n))
                locks
                (as_tl c))
          → Same (Tls.connect_loop socket (suc left) tries dial locks c) (
              Tl.connect_loop socket
                (suc left)
                tries
                (λ t n. as_attempt (dial t n))
                locks
                (as_tl c))
      go (connected stream) is rest =
          rw (is, Tls.connect_loop, Tl.connect_loop)
            record { result_at = refl; object_at = establish-as_tl locks stream c }
      go (handshake_failed e) is rest = rw (is, Tls.connect_loop, Tl.connect_loop) (both_fail _ _ c)
      go (refused e) is rest = rw (is, Tls.connect_loop, Tl.connect_loop) rest
      go attempt_elapsed is rest = rw (is, Tls.connect_loop, Tl.connect_loop) rest
      go total_elapsed is rest = rw (is, Tls.connect_loop, Tl.connect_loop) (both_fail _ _ c)

  -- Where the overall deadline expires in the first attempt, connecting fails and changes nothing.
  connect_late :
      (dial : ℕ → ℕ → Tl.Attempt socket) (locks : Locks) (c : ClientTl socket)
      → dial c.timeout_config.connect 0 ≡ Tl.total_elapsed
      → Tl.connect_loop socket default_max_connect_retries 0 dial locks c
        ≡ (err (timeout (text "connect total deadline exceeded")), c)
  unfolding Tl.connect_loop
  connect_late dial locks c late = rw late refl

  as_dial-named :
      (w : Network socket) (c : ClientTls socket)
      → needs_domain socket c ≡ false
      → as_dial w c
        ≡ dial_built (w.build c.accept_invalid_certs) (w.dial c.accept_invalid_certs c.domain)
  unfolding as_dial dial_built
  as_dial-named w c named = λ i t n. pointwise t n i
    where
      pointwise :
          (t n : ℕ)
          → as_dial w c t n
            ≡ dial_built
                (w.build c.accept_invalid_certs)
                (w.dial c.accept_invalid_certs c.domain)
                t
                n
      pointwise t n = rw named refl

  connect_built-Same :
      (built : Result ℕ (Unit {0})) (w : Network socket) (locks : Locks) (c : ClientTls socket)
      → Same (Tls.connect_built socket built w locks c) (
          Tl.connect_loop socket default_max_connect_retries 0
            (dial_built built (w.dial c.accept_invalid_certs c.domain))
            locks
            (as_tl c))
  unfolding Tls.connect_built dial_built
  connect_built-Same (ok u) w locks c = connect_loop-Same default_max_connect_retries 0 _ locks c
  connect_built-Same (err e) w locks c =
      rw
        (connect_late (dial_built (err e) (w.dial c.accept_invalid_certs c.domain)) locks (as_tl c)
          refl)
        (both_fail _ _ c)

  pub connect-Same :
      (w : Network socket) (locks : Locks) (c : ClientTls socket)
      → Same (Tls.connect socket w locks c) (Tl.connect socket (as_dial w c) locks (as_tl c))
  unfolding Tls.connect Tl.connect as_dial
  connect-Same w locks c = elim (Bool-cases (needs_domain socket c)) [
    | inl placeholder ↦
        rw (placeholder, connect_late (as_dial w c) locks (as_tl c) (rw placeholder refl))
          (both_fail _ _ c)
    | inr named ↦
        rw (named, as_dial-named w c named)
          (connect_built-Same (w.build c.accept_invalid_certs) w locks c)
  ]
