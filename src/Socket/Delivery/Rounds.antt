-- ===== src/Socket/Delivery/Rounds.antt =====
-- One round of the loop of `read_exact_or_closed`, by how its read ends.
use wagonet.Prelude.{
  ℕ, zero, suc, ◌+◌, ◌-◌, ◌≤◌, ◌<◌, ◌≡◌, refl, List, [], ◌∷◌, arith, length, lt→ltb,
}
use wagonet.Errors.{ok, err, in_time, elapsed}
use wagonet.Socket.{Socket}
use wagonet.Socket.Reading.{write_at, after_read, closed_at, read_loop}

module _ (socket : Socket) where
  -- One round of the loop, where the read returned the bytes `c`.
  pub read_loop_step :
      (fuel d filled : ℕ) (buf : List ℕ) (s : socket.State) (c : List ℕ)
      → filled < length buf
      → (socket.read d (length buf - filled) s).0 ≡ in_time (ok c)
      → 0 < length c
      → read_loop socket (suc fuel) d filled buf s
        ≡ read_loop socket fuel d
            (filled + length c)
            (write_at filled c buf)
            (socket.read d (length buf - filled) s).1
  unfolding read_loop
  read_loop_step fuel d filled buf s [] room got some = absurd (omega arith)
  read_loop_step fuel d filled buf s (b ∷ c) room got some = ground arith

  pub read_loop_round :
      (fuel d filled : ℕ) (buf : List ℕ) (s : socket.State)
      → filled < length buf
      → read_loop socket (suc fuel) d filled buf s
        ≡ after_read
            (λ more buf' t. read_loop socket fuel d more buf' t)
            filled
            buf
            (socket.read d (length buf - filled) s).0
            (socket.read d (length buf - filled) s).1
  unfolding read_loop
  read_loop_round fuel d filled buf s room = rw (lt→ltb filled (length buf) room, read_loop) refl

  -- The loop ends on a full buffer.
  pub read_loop_done :
      (fuel d filled : ℕ) (buf : List ℕ) (s : socket.State)
      → length buf ≤ filled
      → read_loop socket fuel d filled buf s ≡ (in_time (ok tt), buf, s)
  unfolding read_loop
  read_loop_done zero d filled buf s full = refl
  read_loop_done (suc fuel) d filled buf s full = ground arith

  -- A read that returns nothing ends the loop.
  pub read_loop_closed :
      (fuel d filled : ℕ) (buf : List ℕ) (s : socket.State)
      → filled < length buf
      → (socket.read d (length buf - filled) s).0 ≡ in_time (ok [])
      → (read_loop socket (suc fuel) d filled buf s).0
        ≡ in_time (err (closed_at filled (length buf)))
  unfolding read_loop
  read_loop_closed fuel d filled buf s room got = ground arith

  -- A read that times out does too.
  pub read_loop_elapsed :
      (fuel d filled : ℕ) (buf : List ℕ) (s : socket.State)
      → filled < length buf
      → (socket.read d (length buf - filled) s).0 ≡ elapsed
      → (read_loop socket (suc fuel) d filled buf s).0 ≡ elapsed
  unfolding read_loop
  read_loop_elapsed fuel d filled buf s room got = ground arith
