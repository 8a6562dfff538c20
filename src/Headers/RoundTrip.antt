-- ===== src/Headers/RoundTrip.antt =====
-- Encoding and decoding of the headers undo one another.
use wagonet.Prelude.{
  refl, if◌then◌else◌, ℕ, ◌≤◌, ◌<◌, ◌≡◌, Bool, true, false, List, [], ◌∷◌, ◌++◌, All, length, arith,
}
use wagonet.Errors.{ok, err, buffer_overflow}
use wagonet.Headers.Bytes.{
  IsByte, IsU32, u32_to_be_bytes, u32_from_be_bytes, from-to_be_bytes, to-from_be_bytes,
}
use wagonet.Headers.{
  RequestHeader, ResponseHeader, encode_request, decode_request, encode_response, decode_response,
  encoded_len,
}

-- A request header whose fields fit in 32 bits and whose size is within the limit is decoded to
-- what was encoded, and the bytes behind it are left.
pub decode-encode_request :
    (h : RequestHeader) (rest : List ℕ) (max : ℕ)
    → IsU32 h.command
    → IsU32 h.data_size
    → h.data_size ≤ max
    → decode_request (encode_request h [] ++ rest) max ≡ ok (h, rest)
unfolding decode_request encode_request u32_to_be_bytes
decode-encode_request h rest max hc hd hm =
    ground (arith, from-to_be_bytes h.command hc, from-to_be_bytes h.data_size hd)

-- Whatever bytes are accepted as a request header, encoding the decoded header gives back the bytes
-- consumed, the announced size is within the limit, and both fields fit in 32 bits.
pub encode-decode_request :
    (buf : List ℕ) (max : ℕ) (h : RequestHeader) (rest : List ℕ)
    → All IsByte buf
    → decode_request buf max ≡ ok (h, rest)
    → (encode_request h [] ++ rest ≡ buf)
      × (h.data_size ≤ max)
      × IsU32 h.command
      × IsU32 h.data_size
unfolding decode_request encode_request u32_to_be_bytes u32_from_be_bytes
encode-decode_request (a ∷ b ∷ c ∷ d ∷ e ∷ f ∷ g ∷ i ∷ buf) max h rest bytes eq =
    ground (arith, to-from_be_bytes a b c d, to-from_be_bytes e f g i)
encode-decode_request buf max h rest bytes eq = ground arith

-- A response header whose size fits in 32 bits and is within the limit is decoded to what was
-- encoded in the same mode, and the bytes behind it are left. In the default mode the size is
-- decoded as zero.
pub decode-encode_response :
    (h : ResponseHeader) (rest : List ℕ) (is_default : Bool) (max : ℕ)
    → IsU32 h.data_size
    → h.data_size ≤ max
    → decode_response (encode_response h [] is_default ++ rest) is_default max
      ≡ ok (record h { data_size = if is_default then 0 else h.data_size }, rest)
unfolding decode_response encode_response u32_to_be_bytes
decode-encode_response h rest true max hd hm = refl
decode-encode_response h rest false max hd hm = ground (arith, from-to_be_bytes h.data_size hd)

pub length-encode_response :
    (h : ResponseHeader) (is_default : Bool)
    → length (encode_response h [] is_default) ≡ encoded_len is_default true
unfolding encode_response encoded_len u32_to_be_bytes
length-encode_response h true = refl
length-encode_response h false = refl

pub length-encode_request : (h : RequestHeader) → length (encode_request h []) ≡ 8
unfolding encode_request u32_to_be_bytes
length-encode_request h = refl

-- An announced size over the limit is refused, with both numbers.
pub decode-encode_oversized :
    (h : RequestHeader) (max : ℕ)
    → IsU32 h.data_size
    → max < h.data_size
    → decode_request (encode_request h []) max ≡ err (buffer_overflow h.data_size max)
unfolding decode_request encode_request u32_to_be_bytes
decode-encode_oversized h max hd over = ground (arith, from-to_be_bytes h.data_size hd)
