-- ===== src/Socket/Delivery/Splitting.antt =====
-- Lists cut at a point that two descriptions share.
use Prim.Native.Nat.{max}
use wagonet.Prelude.{
  ℕ, ◌+◌, ◌≤◌, ◌≡◌, refl, sym, ap, List, [], ◌∷◌, ◌++◌, append_assoc, arith, length, take, drop,
  length-append, length-take, length-drop, take-append,
}
use wagonet.Socket.Reading.{write_at}

-- Two ways to split one list: the shorter front is a front of the longer one.
pub split_front :
    (xs ys zs ws : List ℕ)
    → xs ++ ys ≡ zs ++ ws
    → length zs ≤ length xs
    → (xs ≡ zs ++ drop (length zs) xs) × (ws ≡ drop (length zs) xs ++ ys)
split_front xs ys [] ws e h = (refl, sym e)
split_front [] ys (z ∷ zs) ws e h = absurd (omega arith)
split_front (x ∷ xs) ys (z ∷ zs) ws e h = ground (arith, split_front xs ys zs ws)

pub take-write_at :
    (filled : ℕ) (c buf : List ℕ)
    → filled + length c ≤ length buf
    → take (filled + length c) (write_at filled c buf) ≡ take filled buf ++ c
unfolding write_at
take-write_at filled c buf h =
    let n : length (take filled buf ++ c) ≡ filled + length c =
      omega (arith, length-append (take filled buf) c, length-take filled buf) in
    rw (← append_assoc, ← n) (take-append (take filled buf ++ c) _)

pub length-write_at :
    (filled : ℕ) (c buf : List ℕ)
    → filled + length c ≤ length buf
    → length (write_at filled c buf) ≡ length buf
unfolding write_at
length-write_at filled c buf h = omega (
  arith,
  length-append (take filled buf) (c ++ drop (filled + length c) buf),
  length-append c (drop (filled + length c) buf),
  length-take filled buf,
  length-drop (filled + length c) buf,
)

-- A chunk that does not fit would lengthen the buffer, and still fill it.
pub length-write_at-le :
    (filled : ℕ) (c buf : List ℕ)
    → filled ≤ length buf
    → length (write_at filled c buf) ≤ max (length buf) (filled + length c)
unfolding write_at
length-write_at-le filled c buf h = omega (
  arith,
  length-append (take filled buf) (c ++ drop (filled + length c) buf),
  length-append c (drop (filled + length c) buf),
  length-take filled buf,
  length-drop (filled + length c) buf,
)

pub take-length : (xs : List ℕ) → take (length xs) xs ≡ xs
take-length [] = refl
take-length (x ∷ xs) = ap (λ l. x ∷ l) (take-length xs)
