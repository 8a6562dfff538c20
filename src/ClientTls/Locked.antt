-- ===== src/ClientTls/Locked.antt =====
-- src/client_tls.rs: the exchanges on a locked TLS stream (`send_message_locked` and the functions that
-- it and `receive_message_locked` call). Their errors are boxed, where those of src/client_tl.rs are the
-- crate's own.
use wagonet.Prelude.{ℕ, Bool, true, false, not, ◌||◌, List, [], ltb, ◌==◌, if◌then◌else◌, length}
use wagonet.Errors.{
  Message, Error, Boxed, boxed, boxed_io, boxed_text, IoError, Result, ok, err, text,
  request_rejected, response_not_ok, Timed, in_time, elapsed,
}
use wagonet.Action.{BoxedAction, pure, lift, gets, modify, ◌>>=◌, ◌>>◌}
use wagonet.Headers.Bytes.{as_u32}
use wagonet.Headers.{ResponseHeader, encode_request, encoded_len, encode_response, decode_response}
use wagonet.Timeouts.{TimeoutConfig}
use wagonet.Vec.{Vec, clear, resize, extend_with, overwrite}
use wagonet.Socket.{Socket}
use wagonet.Socket.Reading.{read_exact_or_closed}
use wagonet.ClientTl.Locked.{Link}

-- `?` on an error of the crate, and on one of the I/O library
unfoldable pub box_error {ℓ} : {A : Type ℓ} → Result Error A → Result Boxed A
box_error (ok a) = ok a
box_error (err e) = err (boxed e)

unfoldable pub box_io {ℓ} : {A : Type ℓ} → Result IoError A → Result Boxed A
box_io (ok a) = ok a
box_io (err e) = err (boxed_io e)

-- `Ok(Ok(_)) => {}`, `Ok(Err(e)) => return Err(e.into())`, `Err(_) => return Err(late.into())`
unfoldable pub settle : Message → Timed (Result Error (Unit {0})) → Result Boxed (Unit {0})
unfolding box_error
settle late (in_time r) = box_error r
settle late elapsed = err (boxed_text late)

unfoldable pub settle_io : Message → Timed (Result IoError (Unit {0})) → Result Boxed (Unit {0})
unfolding box_io
settle_io late (in_time r) = box_io r
settle_io late elapsed = err (boxed_text late)

unfoldable pub check_ack : ℕ → Result Boxed (Unit {0})
check_ack status = if status == 1 then ok tt else err (boxed_text (request_rejected status))

unfoldable pub check_status : ℕ → Result Boxed (Unit {0})
check_status status = if status == 1 then ok tt else err (boxed_text (response_not_ok status))

unfoldable pub check_size : ℕ → ℕ → Result Boxed (Unit {0})
check_size data_size max_buffer_size =
    if ltb max_buffer_size data_size
    then err (boxed_text (text "Data size is more then max buffer size"))
    else ok tt

module _ (socket : Socket) where
  -- `stream: &mut TlsStream<TcpStream>` and `buffer: &mut Vec<u8>`
  abbrev pub TlsLink : Type 0
  TlsLink = Link socket

  abbrev pub on_buffer : (Vec → Vec) → BoxedAction TlsLink (Unit {0})
  on_buffer f = modify (λ l. record l { buffer = f l.buffer })

  unfoldable pub write_all : ℕ → List ℕ → BoxedAction TlsLink (Timed (Result IoError (Unit {0})))
  write_all deadline bytes l =
      let (done, stream) = socket.write_all deadline bytes l.stream in
      (ok done, record l { stream = stream })

  unfoldable pub flush : BoxedAction TlsLink (Unit {0})
  unfolding box_io
  flush l =
      let (done, stream) = socket.flush l.stream in (box_io done, record l { stream = stream })

  unfoldable pub read_exact : ℕ → BoxedAction TlsLink (Timed (Result IoError (Unit {0})))
  unfolding overwrite
  read_exact deadline l =
      let (got, bytes, stream) = socket.read_exact deadline l.buffer.items l.stream in
      (ok got, record l { stream = stream; buffer = overwrite bytes l.buffer })

  unfoldable pub read_frame : ℕ → BoxedAction TlsLink (Timed (Result Error (Unit {0})))
  unfolding overwrite
  read_frame deadline l =
      let (got, bytes, stream) = read_exact_or_closed socket deadline l.buffer.items l.stream in
      (ok got, record l { stream = stream; buffer = overwrite bytes l.buffer })

  unfoldable pub send_request_header :
      (command data_size deadline : ℕ) → BoxedAction TlsLink (Unit {0})
  unfolding write_all flush clear extend_with settle_io
  send_request_header command data_size deadline = do
    on_buffer clear
    on_buffer (extend_with (encode_request (record { command = command; data_size = data_size })))
    bytes ← gets (λ l. l.buffer.items)
    done ← write_all deadline bytes
    lift (settle_io (text "Timeout sending request header") done)
    flush
    on_buffer clear

  unfoldable pub send_response_header :
      (status data_size deadline : ℕ) → BoxedAction TlsLink (Unit {0})
  unfolding write_all flush clear extend_with settle_io
  send_response_header status data_size deadline = do
    on_buffer clear
    on_buffer (
        extend_with λ items.
          encode_response (record { status = status; data_size = data_size }) items
            (data_size == 0))
    bytes ← gets (λ l. l.buffer.items)
    done ← write_all deadline bytes
    lift (settle_io (text "Timeout sending response header") done)
    flush
    on_buffer clear

  unfoldable pub receive_response_header :
      (is_default command_has_answer : Bool)
      → (deadline max_buffer_size : ℕ) → BoxedAction TlsLink ResponseHeader
  unfolding read_exact clear resize settle_io box_error
  receive_response_header is_default command_has_answer deadline max_buffer_size = do
    on_buffer (resize (encoded_len is_default command_has_answer))
    got ← read_exact deadline
    lift (settle_io (text "Timeout waiting for response header") got)
    items ← gets (λ l. l.buffer.items)
    decoded ←
        lift
          (box_error (decode_response items (is_default || not command_has_answer) max_buffer_size))
    on_buffer clear
    pure decoded.0

  unfoldable pub send_message :
      TimeoutConfig → Bool → (max_buffer_size command : ℕ) → List ℕ → BoxedAction TlsLink (Unit {0})
  unfolding write_all clear settle_io check_ack
  send_message timeouts command_has_answer max_buffer_size command message = do
    send_request_header command (as_u32 (length message)) timeouts.write
    ack_header ←
        receive_response_header true command_has_answer timeouts.read_header max_buffer_size
    lift (check_ack ack_header.status)
    done ← write_all timeouts.write message
    lift (settle_io (text "Timeout sending message data") done)
    flush
    on_buffer clear

  unfoldable pub receive_payload : TimeoutConfig → ℕ → BoxedAction TlsLink (List ℕ)
  unfolding read_frame resize settle
  receive_payload timeouts data_size = do
    on_buffer (resize data_size)
    got ← read_frame timeouts.read_data
    lift (settle (text "Timeout waiting for message data") got)
    gets (λ l. l.buffer.items)

  unfoldable pub read_response : TimeoutConfig → ℕ → BoxedAction TlsLink (List ℕ)
  unfolding receive_payload clear
  read_response timeouts data_size l =
      if data_size == 0
      then (ok [], record l { buffer = clear l.buffer })
      else receive_payload timeouts data_size l

  unfoldable pub receive_message : TimeoutConfig → Bool → ℕ → BoxedAction TlsLink (List ℕ)
  unfolding check_status check_size
  receive_message timeouts command_has_answer max_buffer_size = do
    res_header ←
        receive_response_header false command_has_answer timeouts.read_header max_buffer_size
    send_response_header 1 0 timeouts.write
    lift (check_status res_header.status)
    lift (check_size res_header.data_size max_buffer_size)
    read_response timeouts res_header.data_size
