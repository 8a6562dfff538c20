-- ===== src/Tests/Codec.antt =====
-- Runs of the header codecs and of the timeout configuration.
use wagonet.Prelude.{ℕ, ◌≡◌, List, [], ◌∷◌, ◌++◌, arith}
use wagonet.Errors.{ok}
use wagonet.Headers.{RequestHeader, ResponseHeader, encode_request, decode_request}
use wagonet.Headers.RoundTrip.{decode-encode_request}
use wagonet.Timeouts.{TimeoutConfig, default_timeout_config, from_millis}

abbrev request : RequestHeader
request = record { command = 513; data_size = 3 }

abbrev response : ResponseHeader
response = record { status = 1; data_size = 258 }

decode-encode_request_example :
    decode_request (encode_request request [] ++ 42 ∷ []) 100 ≡ ok (request, 42 ∷ [])
decode-encode_request_example =
    decode-encode_request request (42 ∷ []) 100 (omega arith) (omega arith) (omega arith)

abbrev request_bytes : List ℕ
request_bytes = 0 ∷ 0 ∷ 2 ∷ 1 ∷ 0 ∷ 0 ∷ 0 ∷ 3 ∷ 42 ∷ []

abbrev hasty : TimeoutConfig
hasty = record default_timeout_config { read_header = from_millis 150 }
