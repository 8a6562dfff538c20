-- ===== src/Protocol/Safety.antt =====
-- What holds of a TCP connection whatever the peer sends and the network does.
use wagonet.Prelude.{ℕ, ◌≤◌, ◌≡◌, ◌≢◌, some, List, arith}
use wagonet.Errors.{ok, from_str}
use wagonet.Action.{lift, >>=-eq-ok}
use wagonet.Headers.{RequestHeader, request_header_size, decode_request}
use wagonet.Vec.{resize, clear}
use wagonet.Socket.Reading.{read_exact_or_closed}
use wagonet.Socket.{Socket}
use wagonet.ServerTl.{ServerTl, read_command, read_frame, settle, answer_header}

decode_request-le :
    (buf : List ℕ) (max : ℕ) (h : RequestHeader) (rest : List ℕ)
    → decode_request buf max ≡ ok (h, rest)
    → h.data_size ≤ max
unfolding decode_request
decode_request-le buf max h rest e = ground arith

module _ (socket : Socket) where
  answer_header-some :
      (h : RequestHeader) (t : ServerTl socket) {command size : ℕ}
      → (answer_header socket h t).0 ≡ ok (some (command, size))
      → (command ≢ 0) × (command ≡ h.command) × (size ≡ h.data_size)
  unfolding answer_header
  answer_header-some h t e = ground arith

  -- On any socket, a request that `read_command` hands on is no ping, and its payload is within the
  -- limit of the connection.
  pub read_command-some :
      (s : ServerTl socket) (command size : ℕ)
      → (read_command socket s).0 ≡ ok (some (command, size))
      → (command ≢ 0) × (size ≤ s.max_buffer_size)
  unfolding read_command
  read_command-some s command size e =
      let s1 = record s { buffer = resize request_header_size s.buffer } in
      let r = read_frame socket s.timeout_config.read_header s1 in
      let settled = lift (
        settle (from_str "Timeout waiting for request header")
          (read_exact_or_closed socket s.timeout_config.read_header s1.buffer.items s.stream).0) in
      let (_, _, more) = >>=-eq-ok settled _ r.1 e in
      let (decoded, is_decoded, answer) =
        >>=-eq-ok (lift (decode_request r.1.buffer.items s.max_buffer_size)) _ r.1 more in
      let facts = answer_header-some decoded.0 (record r.1 { buffer = clear r.1.buffer }) answer in
      let bound =
        decode_request-le r.1.buffer.items s.max_buffer_size decoded.0 decoded.1 is_decoded in
      (facts.0, omega arith)
