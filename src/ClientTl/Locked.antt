-- ===== src/ClientTl/Locked.antt =====
-- src/client_tl.rs: the exchanges on a locked stream (`send_message_locked` and the functions that
-- it and `receive_message_locked` call).
use wagonet.Prelude.{ℕ, Bool, true, false, not, ◌||◌, List, [], ltb, ◌==◌, if◌then◌else◌, length}
use wagonet.Errors.{
  Message, Error, IoError, Result, ok, err, timeout, text, response_error, buffer_overflow, from_io,
  Timed, in_time, elapsed,
}
use wagonet.Action.{Action, pure, lift, gets, modify, ◌>>=◌, ◌>>◌}
use wagonet.Headers.Bytes.{as_u32}
use wagonet.Headers.{ResponseHeader, encode_request, encoded_len, encode_response, decode_response}
use wagonet.Timeouts.{TimeoutConfig}
use wagonet.Vec.{Vec, clear, resize, extend_with, overwrite}
use wagonet.Socket.{Socket}
use wagonet.Socket.Reading.{read_exact_or_closed}

-- `Ok(Ok(_)) => {}`, `Ok(Err(e)) => return Err(..)`, `Err(_) => return Err(Timeout(late))`
unfoldable pub settle : Message → Timed (Result Error (Unit {0})) → Result Error (Unit {0})
settle late (in_time r) = r
settle late elapsed = err (timeout late)

unfoldable pub settle_io : Message → Timed (Result IoError (Unit {0})) → Result Error (Unit {0})
unfolding from_io
settle_io late (in_time r) = from_io r
settle_io late elapsed = err (timeout late)

unfoldable pub check_status : ℕ → Result Error (Unit {0})
check_status status = if status == 1 then ok tt else err (response_error status)

unfoldable pub check_size : ℕ → ℕ → Result Error (Unit {0})
check_size data_size max_buffer_size =
    if ltb max_buffer_size data_size then err (buffer_overflow data_size max_buffer_size) else ok tt

module _ (socket : Socket) where
  -- `stream: &mut TcpStream` and `buffer: &mut Vec<u8>`
  pub record Link : Type 0 where
    pub stream : socket.State
    pub buffer : Vec

  abbrev pub on_buffer : (Vec → Vec) → Action Link (Unit {0})
  on_buffer f = modify (λ l. record l { buffer = f l.buffer })

  unfoldable pub write_all : ℕ → List ℕ → Action Link (Timed (Result IoError (Unit {0})))
  write_all deadline bytes l =
      let (done, stream) = socket.write_all deadline bytes l.stream in
      (ok done, record l { stream = stream })

  unfoldable pub flush : Action Link (Unit {0})
  unfolding from_io
  flush l =
      let (done, stream) = socket.flush l.stream in (from_io done, record l { stream = stream })

  unfoldable pub read_exact : ℕ → Action Link (Timed (Result IoError (Unit {0})))
  unfolding overwrite
  read_exact deadline l =
      let (got, bytes, stream) = socket.read_exact deadline l.buffer.items l.stream in
      (ok got, record l { stream = stream; buffer = overwrite bytes l.buffer })

  unfoldable pub read_frame : ℕ → Action Link (Timed (Result Error (Unit {0})))
  unfolding overwrite
  read_frame deadline l =
      let (got, bytes, stream) = read_exact_or_closed socket deadline l.buffer.items l.stream in
      (ok got, record l { stream = stream; buffer = overwrite bytes l.buffer })

  unfoldable pub send_request_header : (command data_size deadline : ℕ) → Action Link (Unit {0})
  unfolding write_all flush clear extend_with settle_io
  send_request_header command data_size deadline = do
    on_buffer clear
    on_buffer (extend_with (encode_request (record { command = command; data_size = data_size })))
    bytes ← gets (λ l. l.buffer.items)
    done ← write_all deadline bytes
    lift (settle_io (text "Sending request header") done)
    flush
    on_buffer clear

  unfoldable pub send_response_header : (status data_size deadline : ℕ) → Action Link (Unit {0})
  unfolding write_all flush clear extend_with settle_io
  send_response_header status data_size deadline = do
    on_buffer clear
    on_buffer (
        extend_with λ items.
          encode_response (record { status = status; data_size = data_size }) items
            (data_size == 0))
    bytes ← gets (λ l. l.buffer.items)
    done ← write_all deadline bytes
    lift (settle_io (text "Sending response header") done)
    flush
    on_buffer clear

  unfoldable pub receive_response_header :
      (is_default command_has_answer : Bool)
      → (deadline max_buffer_size : ℕ) → Action Link ResponseHeader
  unfolding read_exact clear resize settle_io
  receive_response_header is_default command_has_answer deadline max_buffer_size = do
    on_buffer (resize (encoded_len is_default command_has_answer))
    got ← read_exact deadline
    lift (settle_io (text "Waiting for response header") got)
    items ← gets (λ l. l.buffer.items)
    decoded ← lift (decode_response items (is_default || not command_has_answer) max_buffer_size)
    on_buffer clear
    pure decoded.0

  unfoldable pub send_message :
      TimeoutConfig → Bool → (max_buffer_size command : ℕ) → List ℕ → Action Link (Unit {0})
  unfolding write_all clear settle_io check_status
  send_message timeouts command_has_answer max_buffer_size command message = do
    send_request_header command (as_u32 (length message)) timeouts.write
    ack_header ←
        receive_response_header true command_has_answer timeouts.read_header max_buffer_size
    lift (check_status ack_header.status)
    done ← write_all timeouts.write message
    lift (settle_io (text "Sending message data") done)
    flush
    on_buffer clear

  unfoldable pub receive_payload : TimeoutConfig → ℕ → Action Link (List ℕ)
  unfolding read_frame resize settle
  receive_payload timeouts data_size = do
    on_buffer (resize data_size)
    got ← read_frame timeouts.read_data
    lift (settle (text "Waiting for message data") got)
    gets (λ l. l.buffer.items)

  unfoldable pub read_response : TimeoutConfig → ℕ → Action Link (List ℕ)
  unfolding receive_payload clear
  read_response timeouts data_size l =
      if data_size == 0
      then (ok [], record l { buffer = clear l.buffer })
      else receive_payload timeouts data_size l

  unfoldable pub receive_message : TimeoutConfig → Bool → ℕ → Action Link (List ℕ)
  unfolding check_status check_size
  receive_message timeouts command_has_answer max_buffer_size = do
    res_header ←
        receive_response_header false command_has_answer timeouts.read_header max_buffer_size
    send_response_header 1 0 timeouts.write
    lift (check_status res_header.status)
    lift (check_size res_header.data_size max_buffer_size)
    read_response timeouts res_header.data_size
