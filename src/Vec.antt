-- ===== src/Vec.antt =====
-- The byte buffer of an endpoint: `Vec<u8>` with the capacity that it has reserved.
-- Growth reserves at least what is needed; the model reserves exactly that.
pub mod Length
use wagonet.Prelude.{ℕ, ◌+◌, ◌-◌, ◌≤◌, List, [], ◌++◌, length, take, replicate, leb, if◌then◌else◌}

pub record Vec : Type 0 where
  pub items : List ℕ
  pub capacity : ℕ

-- the capacity once `n` elements are to be held
abbrev pub grown : ℕ → ℕ → ℕ
grown n capacity = if leb n capacity then capacity else n

unfoldable pub with_capacity : ℕ → Vec
with_capacity n = record { items = []; capacity = n }

unfoldable pub clear : Vec → Vec
clear v = record v { items = [] }

-- `resize(n, 0)`
unfoldable pub resize : ℕ → Vec → Vec
resize n v = record {
  items = take n v.items ++ replicate (n - length v.items) 0;
  capacity = grown n v.capacity;
}

-- Bytes appended by `push` and `extend_from_slice`, as `append` computes them.
unfoldable pub extend_with : (List ℕ → List ℕ) → Vec → Vec
extend_with append v = record {
  items = append v.items;
  capacity = grown (length (append v.items)) v.capacity;
}

-- Bytes written in place, by a read into the whole buffer.
unfoldable pub overwrite : List ℕ → Vec → Vec
overwrite bytes v = record v { items = bytes }

-- `try_reserve(additional)` where the allocator grants the request.
unfoldable pub reserve : ℕ → Vec → Vec
reserve additional v = record v { capacity = grown (length v.items + additional) v.capacity }
