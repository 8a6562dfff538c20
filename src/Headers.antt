-- ===== src/Headers.antt =====
-- The frame headers of the wire protocol: src/request_header.rs and src/response_header.rs.
-- A byte slice is a list of numbers; `decode` returns the slice that it has advanced.
pub mod Bytes
pub mod Status
pub mod RoundTrip
use wagonet.Prelude.{
  ℕ, String, Bool, true, false, List, [], ◌∷◌, ◌++◌, ltb, if◌then◌else◌, length, take, drop,
}
use wagonet.Errors.{Error, Result, ok, err, protocol, text, buffer_overflow}
use Bytes.{u32_to_be_bytes, u32_from_be_bytes}

pub record RequestHeader : Type 0 where
  pub command : ℕ
  pub data_size : ℕ

pub record ResponseHeader : Type 0 where
  pub status : ℕ
  pub data_size : ℕ

abbrev pub request_header_size : ℕ
request_header_size = 8

abbrev pub default_response_header_size : ℕ
default_response_header_size = 1

abbrev pub response_header_size : ℕ
response_header_size = 5

unfoldable pub encode_request : RequestHeader → List ℕ → List ℕ
encode_request h buf = buf ++ (u32_to_be_bytes h.command ++ u32_to_be_bytes h.data_size)

unfoldable pub decode_request : List ℕ → ℕ → Result Error (RequestHeader × List ℕ)
decode_request buf max_data_size =
    if ltb (length buf) request_header_size
    then err (protocol (text "Not enough bytes to decode RequestHeader"))
    else let command = u32_from_be_bytes (take 4 buf) in
      let data_size = u32_from_be_bytes (take 4 (drop 4 buf)) in
      if ltb max_data_size data_size
      then err (buffer_overflow data_size max_data_size)
      else ok (record { command = command; data_size = data_size }, drop request_header_size buf)

unfoldable pub encoded_len : Bool → Bool → ℕ
encoded_len is_default command_has_answer =
    if is_default
    then default_response_header_size
    else if command_has_answer
    then response_header_size
    else default_response_header_size

unfoldable pub encode_response : ResponseHeader → List ℕ → Bool → List ℕ
encode_response h buf is_default =
    if is_default
    then buf ++ h.status ∷ []
    else (buf ++ h.status ∷ []) ++ u32_to_be_bytes h.data_size

-- the part of `decode` behind the status byte of a header that is not a default one
decode_sized : ℕ → List ℕ → ℕ → Result Error (ResponseHeader × List ℕ)
decode_sized status buf max_data_size =
    if ltb (length buf) response_header_size
    then err (protocol (text "Not enough bytes to decode ResponseHeader"))
    else let data_size = u32_from_be_bytes (take 4 (drop 1 buf)) in
      if ltb max_data_size data_size
      then err (buffer_overflow data_size max_data_size)
      else ok (record { status = status; data_size = data_size }, drop response_header_size buf)

unfoldable pub decode_response : List ℕ → Bool → ℕ → Result Error (ResponseHeader × List ℕ)
unfolding decode_sized
decode_response [] is_default max_data_size =
    err (protocol (text "Not enough bytes to decode ResponseHeader"))
decode_response (status ∷ rest) is_default max_data_size =
    if is_default
    then ok (record { status = status; data_size = 0 }, rest)
    else decode_sized status (status ∷ rest) max_data_size
