-- ===== src/ServerTl/Commands.antt =====
-- How a connection answers the next request header, on a network that loses nothing.
use wagonet.Prelude.{
  ℕ, ◌≤◌, ◌<◌, ◌≡◌, ◌≢◌, refl, sym, ap, ◌∙◌, true, false, List, [], ◌∷◌, ◌++◌, append-nil, arith,
  Option, none, some, ltb, le→ltb, if◌then◌else◌, ◌==◌,
}
use native.Mathlib.Decide.{ℕ_discrete, dec_le}
use wagonet.Errors.{Error, Result, ok, err, buffer_overflow, protocol, text}
use wagonet.Headers.Bytes.{IsU32}
use wagonet.Headers.{RequestHeader, encode_request, decode_request, encode_response}
use wagonet.Headers.RoundTrip.{decode-encode_request, decode-encode_oversized}
use wagonet.Socket.{Socket}
use wagonet.Socket.Delivery.{Network}
use wagonet.ServerTl.{ServerTl, send_response_header, read_command, answer_header}
use wagonet.ServerTl.Transfers.{
  Moved, Moved-trans, send_response_header_lem, read_command_accepts, read_command_refuses,
}

-- What the protocol promises for each header: the result, and the bytes sent back.
unfoldable pub reply_to : RequestHeader → ℕ → Result Error (Option (ℕ × ℕ)) × List ℕ
reply_to h limit =
    if ltb limit h.data_size
    then (err (buffer_overflow h.data_size limit), [])
    else if h.command == 0
    then (if h.data_size == 0
        then (ok none, 1 ∷ [])
        else (err (protocol (text "Ping must have data_size=0")), 7 ∷ []))
    else (ok (some (h.command, h.data_size)), 1 ∷ [])

module _ (h : RequestHeader) (limit : ℕ) where
  reply_to_oversized :
      limit < h.data_size → reply_to h limit ≡ (err (buffer_overflow h.data_size limit), [])
  unfolding reply_to
  reply_to_oversized over = ground arith

  pub reply_to_ping :
      h.data_size ≤ limit → h.command ≡ 0 → h.data_size ≡ 0 → reply_to h limit ≡ (ok none, 1 ∷ [])
  unfolding reply_to
  reply_to_ping fits is_ping empty = ground arith

  reply_to_bad_ping :
      h.data_size ≤ limit
      → h.command ≡ 0
      → h.data_size ≢ 0
      → reply_to h limit ≡ (err (protocol (text "Ping must have data_size=0")), 7 ∷ [])
  unfolding reply_to
  reply_to_bad_ping fits is_ping loaded = ground arith

  pub reply_to_command :
      h.data_size ≤ limit
      → h.command ≢ 0
      → reply_to h limit ≡ (ok (some (h.command, h.data_size)), 1 ∷ [])
  unfolding reply_to
  reply_to_command fits command = ground arith

module _ (socket : Socket) (net : Network socket) where
  -- Sends the one-byte header `status`, then returns `r`.
  answered :
      (status d : ℕ) (t : ServerTl socket)
      → ((send_response_header socket status 0 true d t).0 ≡ ok tt)
        × Moved socket net t
            (send_response_header socket status 0 true d t).1
            (net.pending t.stream)
            (status ∷ [])
  unfolding encode_response
  answered status d t = send_response_header_lem socket net status 0 true d t

  answer_ping :
      (h : RequestHeader) (t : ServerTl socket)
      → h.command ≡ 0
      → h.data_size ≡ 0
      → ((answer_header socket h t).0 ≡ ok none)
        × Moved socket net t (answer_header socket h t).1 (net.pending t.stream) (1 ∷ [])
  unfolding answer_header
  answer_ping h t is_ping empty =
      let sent = answered 1 t.timeout_config.ping_write t in
      let b : (h.command == 0) ≡ true = ground arith in
      let z : (h.data_size == 0) ≡ true = ground arith in
      rw (b, answer_header) (rw (z, answer_header) (rw sent.0 (refl, sent.1)))

  answer_bad_ping :
      (h : RequestHeader) (t : ServerTl socket)
      → h.command ≡ 0
      → h.data_size ≢ 0
      → ((answer_header socket h t).0 ≡ err (protocol (text "Ping must have data_size=0")))
        × Moved socket net t (answer_header socket h t).1 (net.pending t.stream) (7 ∷ [])
  unfolding answer_header
  answer_bad_ping h t is_ping loaded =
      let sent = answered 7 t.timeout_config.ping_write t in
      let b : (h.command == 0) ≡ true = ground arith in
      let z : (h.data_size == 0) ≡ false = ground arith in
      rw (b, answer_header) (rw (z, answer_header) (rw sent.0 (refl, sent.1)))

  answer_command :
      (h : RequestHeader) (t : ServerTl socket)
      → h.command ≢ 0
      → h.data_size ≤ t.max_buffer_size
      → ((answer_header socket h t).0 ≡ ok (some (h.command, h.data_size)))
        × Moved socket net t (answer_header socket h t).1 (net.pending t.stream) (1 ∷ [])
  unfolding answer_header
  answer_command h t nonzero fits =
      let sent = answered 1 t.timeout_config.write t in
      let b : (h.command == 0) ≡ false = ground arith in
      rw (b, answer_header)
        (rw (le→ltb t.max_buffer_size h.data_size fits, answer_header) (rw sent.0 (refl, sent.1)))

  answer_header_lem :
      (h : RequestHeader) (t : ServerTl socket) (limit : ℕ)
      → t.max_buffer_size ≡ limit
      → h.data_size ≤ limit
      → ((answer_header socket h t).0 ≡ (reply_to h limit).0)
        × Moved socket net t
            (answer_header socket h t).1
            (net.pending t.stream)
            (reply_to h limit).1
  answer_header_lem h t limit same fits = elim (ℕ_discrete h.command 0) [
    | yes is_ping ↦ elim (ℕ_discrete h.data_size 0) [
      | yes empty ↦ rw (reply_to_ping h limit fits is_ping empty) (answer_ping h t is_ping empty)
      | no loaded ↦
          rw (reply_to_bad_ping h limit fits is_ping loaded) (answer_bad_ping h t is_ping loaded)
    ]
    | no command ↦
        rw (reply_to_command h limit fits command) (answer_command h t command (omega arith))
  ]

  -- On a network that loses nothing, a request header whose fields fit in 32 bits gets the result
  -- and the bytes that `reply_to` says: a size over the limit is an error and sends nothing; a ping
  -- without payload is answered by 1 and one with a payload by 7 and an error; any other command is
  -- handed on and answered by 1. The bytes behind the header are left, and limit and timeouts are
  -- kept.
  pub read_command_replies :
      (h : RequestHeader) (rest : List ℕ) (s : ServerTl socket)
      → IsU32 h.command
      → IsU32 h.data_size
      → net.pending s.stream ≡ encode_request h [] ++ rest
      → ((read_command socket s).0 ≡ (reply_to h s.max_buffer_size).0)
        × Moved socket net s (read_command socket s).1 rest (reply_to h s.max_buffer_size).1
  read_command_replies h rest s hc hd e = elim (dec_le h.data_size s.max_buffer_size) [
    | yes fits ↦
        let (t, same, moved) = read_command_accepts socket net h rest s e (
          ap (λ l. decode_request l s.max_buffer_size) (sym (append-nil (encode_request h [])))
          ∙ decode-encode_request h [] s.max_buffer_size hc hd fits) in
        let answer = answer_header_lem h t s.max_buffer_size moved.same_limit fits in
        rw same (
          answer.0,
          Moved-trans socket net rest rest [] (reply_to h s.max_buffer_size).1 moved
              (rw moved.pending_left at answer.1),
        )
    | no over ↦ rw (reply_to_oversized h s.max_buffer_size (omega arith)) (
        read_command_refuses socket net h rest s (buffer_overflow h.data_size s.max_buffer_size) e
          (decode-encode_oversized h s.max_buffer_size hd (omega arith)))
  ]
