-- ===== src/Socket/Delivery/Fuel.antt =====
-- The fuel of the loop of `read_exact_or_closed`.
use wagonet.Prelude.{
  Bool-cases, inl, inr, ℕ, zero, suc, ◌+◌, ◌-◌, ◌≤◌, ◌≡◌, refl, sym, ◌∙◌, List, [], ◌∷◌, arith,
  length, ltb, ltb→lt,
}
use wagonet.Errors.{ok, err, Timed, in_time, elapsed, Result, Error, IoError}
use wagonet.Socket.{Socket}
use wagonet.Socket.Reading.{write_at, after_read, read_loop}
use wagonet.Socket.Delivery.Splitting.{length-write_at-le}
use wagonet.Socket.Delivery.Rounds.{read_loop_round, read_loop_done}

module _ {S : Type 0} where
  -- Two continuations that agree behind a buffer that is one round fuller give the same round.
  after_read_cong :
      (again other : ℕ → List ℕ → S → Timed (Result Error (Unit {0})) × List ℕ × S)
      → (filled : ℕ) (buf : List ℕ) (got : Timed (Result IoError (List ℕ))) (s : S)
      → ((b : ℕ) (c : List ℕ)
          → again (filled + length (b ∷ c)) (write_at filled (b ∷ c) buf) s
            ≡ other (filled + length (b ∷ c)) (write_at filled (b ∷ c) buf) s)
      → after_read again filled buf got s ≡ after_read other filled buf got s
  unfolding after_read
  after_read_cong again other filled buf elapsed s same = refl
  after_read_cong again other filled buf (in_time (err e)) s same = refl
  after_read_cong again other filled buf (in_time (ok [])) s same = refl
  after_read_cong again other filled buf (in_time (ok (b ∷ c))) s same = same b c

module _ (socket : Socket) where
  -- On any socket, two amounts of fuel that each cover the rest of the buffer give the same: the
  -- loop never runs out of fuel.
  pub read_loop_fuel :
      (m n d filled : ℕ) (buf : List ℕ) (s : socket.State)
      → length buf ≤ filled + m
      → length buf ≤ filled + n
      → read_loop socket m d filled buf s ≡ read_loop socket n d filled buf s
  read_loop_fuel zero n d filled buf s hm hn =
      read_loop_done socket zero d filled buf s (omega arith)
      ∙ sym (read_loop_done socket n d filled buf s (omega arith))
  read_loop_fuel (suc m) zero d filled buf s hm hn =
      read_loop_done socket (suc m) d filled buf s (omega arith)
      ∙ sym (read_loop_done socket zero d filled buf s (omega arith))
  read_loop_fuel (suc m) (suc n) d filled buf s hm hn =
      let next =
        after_read_cong (λ more buf' t. read_loop socket m d more buf' t)
          (λ more buf' t. read_loop socket n d more buf' t) filled buf
          (socket.read d (length buf - filled) s).0 (socket.read d (length buf - filled) s).1 in
      elim (Bool-cases (ltb filled (length buf))) [
        | inl room ↦
            let fits = ltb→lt filled (length buf) room in
            read_loop_round socket m d filled buf s fits
            ∙ next (λ b c.
              let grow = length-write_at-le filled (b ∷ c) buf (omega arith) in
              read_loop_fuel m n d (filled + length (b ∷ c)) (write_at filled (b ∷ c) buf)
                (socket.read d (length buf - filled) s).1 (omega arith) (omega arith))
            ∙ sym (read_loop_round socket n d filled buf s fits)
        | inr full ↦
            let over : length buf ≤ filled = ground arith in
            read_loop_done socket (suc m) d filled buf s over
            ∙ sym (read_loop_done socket (suc n) d filled buf s over)
      ]
