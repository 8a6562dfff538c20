-- ===== src/Vec/Length.antt =====
-- The length of a buffer behind its operations.
use wagonet.Prelude.{
  ℕ, ◌-◌, ◌≡◌, length, arith, length-append, length-take, length-replicate, take, replicate,
}
use wagonet.Vec.{Vec, resize}

pub length-resize : (n : ℕ) (v : Vec) → length (resize n v).items ≡ n
unfolding resize
length-resize n v = omega (
  arith,
  length-append (take n v.items) (replicate (n - length v.items) 0),
  length-take n v.items,
  length-replicate {A = ℕ} (n - length v.items) 0,
)
