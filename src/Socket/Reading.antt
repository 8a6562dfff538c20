-- ===== src/Socket/Reading.antt =====
-- `read_exact_or_closed` of src/common.rs.
use wagonet.Prelude.{
  ℕ, zero, suc, ◌+◌, ◌-◌, ◌*◌, true, false, List, [], ◌∷◌, ◌++◌, ◌==◌, if◌then◌else◌, length, take,
  drop, ltb,
}
use wagonet.Errors.{
  Error, IoError, Result, ok, err, io, connection_closed, connection_closed_mid_frame, Timed,
  in_time, elapsed,
}
use wagonet.Socket.{Socket}

abbrev pub default_max_buffer_size : ℕ
default_max_buffer_size = 10 * 1024 * 1024

-- The bytes of a read, written to the buffer from position `filled` on.
unfoldable pub write_at : ℕ → List ℕ → List ℕ → List ℕ
write_at filled bytes buf = take filled buf ++ (bytes ++ drop (filled + length bytes) buf)

-- The error of a read that returned nothing.
unfoldable pub closed_at : ℕ → ℕ → Error
closed_at filled expected =
    if filled == 0 then connection_closed else connection_closed_mid_frame filled expected

module _ {S : Type 0} where
  -- The body of the loop behind the read: `again` is the next round, at the new `filled`.
  unfoldable pub after_read :
      (ℕ → List ℕ → S → Timed (Result Error (Unit {0})) × List ℕ × S)
      → (filled : ℕ) → List ℕ
      → Timed (Result IoError (List ℕ))
      → S
      → Timed (Result Error (Unit {0})) × List ℕ × S
  after_read again filled buf elapsed s = (elapsed, buf, s)
  after_read again filled buf (in_time (err e)) s = (in_time (err (io e)), buf, s)
  after_read again filled buf (in_time (ok [])) s =
      (in_time (err (closed_at filled (length buf))), buf, s)
  after_read again filled buf (in_time (ok (b ∷ bytes))) s =
      again (filled + length (b ∷ bytes)) (write_at filled (b ∷ bytes) buf) s

module _ (socket : Socket) where
  -- `while filled < buf.len()`. Each round that goes on fills at least one byte, so the length of
  -- the buffer is fuel enough: where the fuel is used up, the buffer is full.
  unfoldable pub read_loop :
      ℕ
      → (deadline filled : ℕ) → List ℕ
      → socket.State
      → Timed (Result Error (Unit {0})) × List ℕ × socket.State
  unfolding after_read
  read_loop zero deadline filled buf s = (in_time (ok tt), buf, s)
  read_loop (suc fuel) deadline filled buf s =
      let (got, s') = socket.read deadline (length buf - filled) s in
      elim (ltb filled (length buf)) [
        | false ↦ (in_time (ok tt), buf, s)
        | true ↦ after_read (λ more buf' t. read_loop fuel deadline more buf' t) filled buf got s'
      ]

  unfoldable pub read_exact_or_closed :
      (deadline : ℕ)
      → List ℕ
      → socket.State
      → Timed (Result Error (Unit {0})) × List ℕ × socket.State
  unfolding read_loop
  read_exact_or_closed deadline buf s = read_loop (length buf) deadline 0 buf s
