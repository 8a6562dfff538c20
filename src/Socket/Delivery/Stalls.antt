-- ===== src/Socket/Delivery/Stalls.antt =====
-- Reads that do not come to their end: what they leave of the bytes written, and how they fail.
use wagonet.Prelude.{
  ℕ, zero, suc, ◌+◌, ◌-◌, ◌<◌, ◌≡◌, ◌≢◌, refl, ◌∙◌, Bool-cases, ltb, List, [], ◌∷◌, length, ◌⊎◌,
  inl, inr,
}
use wagonet.Errors.{
  Error, IoError, Result, ok, err, Timed, in_time, elapsed, unexpected_eof, connection_closed,
  connection_closed_mid_frame,
}
use wagonet.Socket.{Socket}
use wagonet.Socket.Reading.{write_at, after_read, read_loop, read_exact_or_closed}
use wagonet.Socket.Delivery.{Network}
use wagonet.Socket.Delivery.Frames.{read_exact_or_closed_short}

-- A timed operation that did not succeed.
pub data Stalled {E : Type 0} : Timed (Result E (Unit {0})) → Type 0 where
  late : Stalled elapsed
  failed : (x : E) → Stalled (in_time (err x))

nothing_or_some : (l : List ℕ) → (l ≡ []) ⊎ (l ≢ [])
nothing_or_some [] = inl refl
nothing_or_some (b ∷ l) = inr (λ e. cc)

module _ (socket : Socket) (net : Network socket) where
  after_read-sent :
      (sent_before : List ℕ)
      (again : ℕ → List ℕ → socket.State → Timed (Result Error (Unit {0})) × List ℕ × socket.State)
      (filled : ℕ) (buf : List ℕ) (got : Timed (Result IoError (List ℕ))) (s : socket.State)
      → ((more : ℕ) (buf' : List ℕ) (t : socket.State)
          → net.sent (again more buf' t).2 ≡ net.sent t)
      → net.sent s ≡ sent_before
      → net.sent (after_read again filled buf got s).2 ≡ sent_before
  unfolding after_read
  after_read-sent before again filled buf elapsed s keep e = e
  after_read-sent before again filled buf (in_time (err x)) s keep e = e
  after_read-sent before again filled buf (in_time (ok [])) s keep e = e
  after_read-sent before again filled buf (in_time (ok (b ∷ bytes))) s keep e =
      keep (filled + length (b ∷ bytes)) (write_at filled (b ∷ bytes) buf) s ∙ e

  read_loop-sent :
      (fuel d filled : ℕ) (buf : List ℕ) (s : socket.State)
      → net.sent (read_loop socket fuel d filled buf s).2 ≡ net.sent s
  unfolding read_loop
  read_loop-sent zero d filled buf s = refl
  read_loop-sent (suc fuel) d filled buf s = elim (Bool-cases (ltb filled (length buf))) [
    | inl room ↦
        rw (room, read_loop)
          (after_read-sent (net.sent s) (λ more buf' t. read_loop socket fuel d more buf' t) filled
            buf (socket.read d (length buf - filled) s).0 (socket.read d (length buf - filled) s).1
            (λ more buf' t. read_loop-sent fuel d more buf' t)
            (net.read_sent d (length buf - filled) s))
    | inr full ↦ rw (full, read_loop) refl
  ]

  -- The frame reader writes nothing, however it ends.
  pub read_exact_or_closed-sent :
      (d : ℕ) (buf : List ℕ) (s : socket.State)
      → net.sent (read_exact_or_closed socket d buf s).2 ≡ net.sent s
  unfolding read_exact_or_closed
  read_exact_or_closed-sent d buf s = read_loop-sent (length buf) d 0 buf s

  -- With fewer bytes to come than the buffer holds neither read succeeds.
  pub read_exact_or_closed-Stalled :
      (d : ℕ) (buf : List ℕ) (s : socket.State)
      → length (net.pending s) < length buf
      → Stalled (read_exact_or_closed socket d buf s).0
  read_exact_or_closed-Stalled d buf s short = elim (Bool-cases (net.is_closed s)) [
    | inl shut ↦ elim (nothing_or_some (net.pending s)) [
      | inl none ↦
          rw ((read_exact_or_closed_short socket net d buf s short).1 shut none)
            (failed connection_closed)
      | inr more ↦
          rw ((read_exact_or_closed_short socket net d buf s short).2 shut more)
            (failed (connection_closed_mid_frame (length (net.pending s)) (length buf)))
    ]
    | inr silent ↦ rw ((read_exact_or_closed_short socket net d buf s short).0 silent) late
  ]

  pub read_exact-Stalled :
      (d : ℕ) (buf : List ℕ) (s : socket.State)
      → length (net.pending s) < length buf
      → Stalled (socket.read_exact d buf s).0
  read_exact-Stalled d buf s short = elim (Bool-cases (net.is_closed s)) [
    | inl shut ↦ rw (net.read_exact_end d buf s short shut) (failed unexpected_eof)
    | inr silent ↦ rw (net.read_exact_silent d buf s short silent) late
  ]
