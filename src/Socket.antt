-- ===== src/Socket.antt =====
-- What the endpoints use of tokio: one connected stream, behind an interface. Nothing is said here
-- of what the operations do; theorems name what they rely on as hypotheses. Each operation takes
-- the timeout that it runs under, and `elapsed` is that timeout's expiry.
pub mod Reading
pub mod Delivery
pub mod Pipe
use wagonet.Prelude.{ℕ, List, Option}
use wagonet.Errors.{IoError, Result, Timed}

pub record Socket : Type 1 where
  pub State : Type 0
  -- `AsyncReadExt::read` into a slice of the given length: the bytes read, none at the end
  pub read : (deadline room : ℕ) → State → Timed (Result IoError (List ℕ)) × State
  -- `AsyncReadExt::read_exact` into a slice, which comes back with what was written to it
  pub read_exact :
      (deadline : ℕ) → List ℕ → State → Timed (Result IoError (Unit {0})) × List ℕ × State
  pub write_all : (deadline : ℕ) → List ℕ → State → Timed (Result IoError (Unit {0})) × State
  -- `write_all` and `flush` awaited with no timeout: they return when they are done
  pub write_all_wait : List ℕ → State → Result IoError (Unit {0}) × State
  pub flush : State → Result IoError (Unit {0}) × State
  pub shutdown : State → Result IoError (Unit {0}) × State
