-- ===== src/Headers/Bytes.antt =====
-- `u32::to_be_bytes` and `u32::from_be_bytes` of Rust's library, and `as u32`.
use wagonet.Prelude.{ℕ, ◌+◌, ◌*◌, ◌/◌, ◌%◌, ◌^◌, ◌<◌, ◌≡◌, List, [], ◌∷◌, All, arith}

abbrev pub IsByte : ℕ → Type 0
IsByte b = b < 256

abbrev pub IsU32 : ℕ → Type 0
IsU32 n = n < 2 ^ 32

-- `n as u32`
abbrev pub as_u32 : ℕ → ℕ
as_u32 n = n % 2 ^ 32

-- `n as u8`
abbrev pub as_u8 : ℕ → ℕ
as_u8 n = n % 256

unfoldable pub u32_to_be_bytes : ℕ → List ℕ
u32_to_be_bytes n = (n / 2 ^ 24 % 256) ∷ (n / 2 ^ 16 % 256) ∷ (n / 2 ^ 8 % 256) ∷ (n % 256) ∷ []

-- The callers pass exactly four bytes.
unfoldable pub u32_from_be_bytes : List ℕ → ℕ
u32_from_be_bytes (a ∷ b ∷ c ∷ d ∷ []) = a * 2 ^ 24 + b * 2 ^ 16 + c * 2 ^ 8 + d
u32_from_be_bytes _ = 0

pub from-to_be_bytes : (n : ℕ) → IsU32 n → u32_from_be_bytes (u32_to_be_bytes n) ≡ n
unfolding u32_to_be_bytes u32_from_be_bytes
from-to_be_bytes n h = omega arith

pub to-from_be_bytes :
    (a b c d : ℕ)
    → All IsByte (a ∷ b ∷ c ∷ d ∷ [])
    → u32_to_be_bytes (u32_from_be_bytes (a ∷ b ∷ c ∷ d ∷ [])) ≡ a ∷ b ∷ c ∷ d ∷ []
unfolding u32_to_be_bytes u32_from_be_bytes
to-from_be_bytes a b c d h = ground arith
