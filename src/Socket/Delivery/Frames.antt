-- ===== src/Socket/Delivery/Frames.antt =====
-- What `read_exact_or_closed` returns on a network that loses nothing.
use wagonet.Prelude.{
  true, false, if◌then◌else◌, Bool-cases, ◌≢◌, inl, inr, ℕ, zero, suc, ◌+◌, ◌-◌, ◌≤◌, ◌<◌, ◌≡◌,
  refl, sym, ap, ◌∙◌, List, [], ◌∷◌, ◌++◌, append_assoc, append-nil, arith, length, take, drop,
  length-append,
}
use wagonet.Errors.{ok, err, in_time, elapsed, connection_closed, connection_closed_mid_frame}
use wagonet.Socket.{Socket}
use wagonet.Socket.Reading.{write_at, closed_at, read_loop, read_exact_or_closed}
use wagonet.Socket.Delivery.{Network}
use wagonet.Socket.Delivery.Splitting.{split_front, take-write_at, length-write_at, take-length}
use wagonet.Socket.Delivery.Rounds.{
  read_loop_step, read_loop_done, read_loop_closed, read_loop_elapsed,
}

length-zero : (xs : List ℕ) → length xs ≡ 0 → xs ≡ []
length-zero [] e = refl
length-zero (x ∷ xs) e = absurd (omega arith)

module _ (socket : Socket) (net : Network socket) where
  -- What is left of the view when `bytes` have been read.
  pub record Took (s s' : socket.State) (rest : List ℕ) : Type 0 where
    pub pending_left : net.pending s' ≡ rest
    pub sent_kept : net.sent s' ≡ net.sent s
    pub closed_kept : net.is_closed s' ≡ net.is_closed s

  Took-chunk :
      (d room : ℕ) (s : socket.State) (bs rest : List ℕ)
      → net.pending s ≡ bs ++ rest
      → room ≡ length bs
      → 0 < length bs
      → (c : List ℕ) × ((socket.read d room s).0 ≡ in_time (ok c))
        × (0 < length c)
        × (length c ≤ room)
        × (bs ≡ c ++ drop (length c) bs)
        × Took s (socket.read d room s).1 (drop (length c) bs ++ rest)
  Took-chunk d room s [] rest e n some = absurd (omega arith)
  Took-chunk d room s (b ∷ bs) rest e n some =
      let c = net.chunk d room s in
      let law = net.read_some d room s (omega arith) (λ none. cc) in
      let cut =
        split_front (b ∷ bs) rest c (net.pending (socket.read d room s).1) (sym e ∙ law.3)
          (omega arith) in
      (
        c,
        law.0,
        law.1,
        law.2,
        cut.0,
        record { pending_left = cut.1; sent_kept = law.4; closed_kept = law.5 },
      )

  -- The loop with the bytes `bs` still to come, over a buffer that lacks just those.
  read_loop_full :
      (fuel d filled : ℕ) (buf : List ℕ) (s : socket.State) (bs rest : List ℕ)
      → net.pending s ≡ bs ++ rest
      → filled + length bs ≡ length buf
      → length bs ≤ fuel
      → ((read_loop socket fuel d filled buf s).0 ≡ in_time (ok tt))
        × ((read_loop socket fuel d filled buf s).1 ≡ take filled buf ++ bs)
        × Took s (read_loop socket fuel d filled buf s).2 rest
  read_loop_full fuel d filled buf s [] rest e room f =
      let n : length buf ≡ filled = omega arith in
      rw (read_loop_done socket fuel d filled buf s (omega arith)) (
        refl,
        rw append-nil (rw (← n) (sym (take-length buf))),
        record { pending_left = e; sent_kept = refl; closed_kept = refl },
      )
  read_loop_full zero d filled buf s (b ∷ bs) rest e room f = absurd (omega arith)
  read_loop_full (suc fuel) d filled buf s (b ∷ bs) rest e room f =
      let (c, got, some, fits, cut, took) =
        Took-chunk d (length buf - filled) s (b ∷ bs) rest e (omega arith) (omega arith) in
      let left = drop (length c) (b ∷ bs) in
      let n : length (b ∷ bs) ≡ length c + length left = ap length cut ∙ length-append c left in
      let again =
        read_loop_full fuel d (filled + length c) (write_at filled c buf)
          (socket.read d (length buf - filled) s).1 left rest took.pending_left
          (omega (arith, length-write_at filled c buf)) (omega arith) in
      rw (read_loop_step socket fuel d filled buf s c (omega arith) got some) (
        again.0,
        again.1 ∙ rw (take-write_at filled c buf (omega arith), append_assoc, ← cut) refl,
        record {
          pending_left = again.2.pending_left;
          sent_kept = again.2.sent_kept ∙ took.sent_kept;
          closed_kept = again.2.closed_kept ∙ took.closed_kept;
        },
      )

  -- What a round of the loop meets while the peer still has bytes to deliver, however few.
  next_chunk :
      (d room : ℕ) (s : socket.State)
      → 0 < room
      → 0 < length (net.pending s)
      → (c : List ℕ) × ((socket.read d room s).0 ≡ in_time (ok c))
        × (0 < length c)
        × (length c ≤ room)
        × (length (net.pending s) ≡ length c + length (net.pending (socket.read d room s).1))
        × (net.is_closed (socket.read d room s).1 ≡ net.is_closed s)
  next_chunk d room s open_room some =
      let law = net.read_some d room s open_room (λ none. absurd (omega (arith, ap length none))) in
      let c = net.chunk d room s in
      (
        c,
        law.0,
        law.1,
        law.2,
        ap length law.3 ∙ length-append c (net.pending (socket.read d room s).1),
        law.5,
      )

  -- The loop where the peer has too few bytes: it ends on the close, or on the timeout.
  read_loop_short :
      (k fuel d filled : ℕ) (buf : List ℕ) (s : socket.State)
      → length (net.pending s) ≡ k
      → filled + k < length buf
      → k < fuel
      → (read_loop socket fuel d filled buf s).0
        ≡ (if net.is_closed s then in_time (err (closed_at (filled + k) (length buf))) else elapsed)
  read_loop_short k zero d filled buf s n room f = absurd (omega arith)
  read_loop_short zero (suc fuel) d filled buf s n room f =
      let none = length-zero (net.pending s) n in
      let h : filled + 0 ≡ filled = omega arith in
      elim (Bool-cases (net.is_closed s)) [
        | inl shut ↦
            rw (shut, h)
              (read_loop_closed socket fuel d filled buf s (omega arith)
                (net.read_end d (length buf - filled) s none shut))
        | inr silent ↦ rw silent (
            read_loop_elapsed socket fuel d filled buf s (omega arith)
              (net.read_silent d (length buf - filled) s none silent))
      ]
  read_loop_short (suc k) (suc fuel) d filled buf s n room f =
      let (c, got, some, fits, cut, same) =
        next_chunk d (length buf - filled) s (omega arith) (omega arith) in
      let s' = (socket.read d (length buf - filled) s).1 in
      let buf' = write_at filled c buf in
      let left = length (net.pending s') in
      let grow = length-write_at filled c buf (omega arith) in
      let total : (filled + length c) + left ≡ filled + suc k = omega arith in
      let again =
        read_loop_short left fuel d (filled + length c) buf' s' refl (omega arith) (omega arith) in
      rw (read_loop_step socket fuel d filled buf s c (omega arith) got some)
        (again ∙ rw (same, total, grow) refl)

  -- On a network that loses nothing and has at least as many bytes to come as the buffer holds, the
  -- buffer is filled with the next bytes, and just those are taken, in whatever pieces they arrive.
  pub read_exact_or_closed_all :
      (d : ℕ) (buf : List ℕ) (s : socket.State) (bytes rest : List ℕ)
      → net.pending s ≡ bytes ++ rest
      → length bytes ≡ length buf
      → ((read_exact_or_closed socket d buf s).0 ≡ in_time (ok tt))
        × ((read_exact_or_closed socket d buf s).1 ≡ bytes)
        × Took s (read_exact_or_closed socket d buf s).2 rest
  unfolding read_exact_or_closed
  read_exact_or_closed_all d buf s bytes rest e n =
      read_loop_full (length buf) d 0 buf s bytes rest e (omega arith) (omega arith)

  -- On a network that loses nothing and has fewer bytes to come than the buffer holds, the call
  -- times out if the peer stays silent; if the peer closes, it reports a close between frames where
  -- no byte was to come, and otherwise a close inside a frame, with both counts.
  pub read_exact_or_closed_short :
      (d : ℕ) (buf : List ℕ) (s : socket.State)
      → length (net.pending s) < length buf
      → let r = (read_exact_or_closed socket d buf s).0 in
        (net.is_closed s ≡ false → r ≡ elapsed)
        × (net.is_closed s ≡ true → net.pending s ≡ [] → r ≡ in_time (err connection_closed))
        × (net.is_closed s ≡ true
            → net.pending s ≢ []
            → r ≡ in_time (err (connection_closed_mid_frame (length (net.pending s)) (length buf))))
  unfolding read_exact_or_closed closed_at
  read_exact_or_closed_short d buf s short =
      let same : 0 + length (net.pending s) ≡ length (net.pending s) = omega arith in
      let all = rw same at (
        read_loop_short (length (net.pending s)) (length buf) d 0 buf s refl (omega arith) short) in
      (
        λ silent. ground (arith, all, silent),
        λ shut none. ground (arith, all, shut, ap length none),
        λ shut some_left.
            (let filled : length (net.pending s) ≢ 0 =
                λ z. some_left (length-zero (net.pending s) z) in
              ground (arith, all, shut, filled)),
      )
