-- ===== src/Errors.antt =====
-- src/lib.rs: the error type, its conversions, and `Result`.
use wagonet.Prelude.{ℕ, String, Bool, true, false}

-- The text that an error carries. A text made by `format!` is kept as the values that it shows;
-- what `{e}` shows of an allocation failure is left out.
pub data Message : Type 0 where
  text : String → Message
  cannot_be_reserved : ℕ → Message
  ping_interval_invariant : ℕ → ℕ → Message
  request_rejected : ℕ → Message
  response_not_ok : ℕ → Message
  unknown_command : ℕ → Message

-- `std::io::Error`, by its kind: the code asks only for `UnexpectedEof`.
pub data IoError : Type 0 where
  unexpected_eof : IoError
  other_kind : ℕ → IoError

-- `Box<dyn std::error::Error>` holds an error of the crate, of the I/O library, or made of a text.
-- `native_tls::Error` is opaque to the code, and so is the number that stands for it.
mutual
  pub data Error : Type 0 where
    io : IoError → Error
    timeout : Message → Error
    tls : ℕ → Error
    protocol : Message → Error
    buffer_overflow : (expected limit : ℕ) → Error
    not_connected : Error
    connection_closed : Error
    connection_closed_mid_frame : (received expected : ℕ) → Error
    response_error : (status : ℕ) → Error
    config : Message → Error
    other : Boxed → Error
    msg : Message → Error

  pub data Boxed : Type 0 where
    boxed : Error → Boxed
    boxed_io : IoError → Boxed
    boxed_text : Message → Boxed

unfoldable pub is_disconnect : Error → Bool
is_disconnect connection_closed = true
is_disconnect (connection_closed_mid_frame received expected) = true
is_disconnect _ = false

-- `"...".into()`
abbrev pub from_str : String → Error
from_str s = msg (text s)

pub data Result {ℓ κ} (E : Type κ) (A : Type ℓ) : Type (ℓ ⊔ κ) where
  ok : A → Result E A
  err : E → Result E A

-- `?` on an I/O result
unfoldable pub from_io {ℓ} : {A : Type ℓ} → Result IoError A → Result Error A
from_io (ok a) = ok a
from_io (err e) = err (io e)

-- What `tokio::time::timeout` returns: the value of the future, or `Elapsed`.
pub data Timed {ℓ} (A : Type ℓ) : Type ℓ where
  in_time : A → Timed A
  elapsed : Timed A
