-- ===== src/ServerTl.antt =====
-- src/server_tl.rs: the plain TCP side of one accepted connection. Both halves of the stream are
-- one socket state. Log lines are left out.
pub mod Transfers
pub mod Commands
pub mod Replies
pub mod Stalls
pub mod Capacity
pub mod Reserved
use wagonet.Prelude.{
  ℕ, ◌-◌, Bool, true, false, Option, none, some, List, [], ltb, ◌==◌, if◌then◌else◌, length,
}
use wagonet.Errors.{
  Error, IoError, Result, ok, err, io, config, msg, text, protocol, cannot_be_reserved, from_str,
  from_io, connection_closed, connection_closed_mid_frame, Timed, in_time, elapsed,
}
use wagonet.Action.{Action, pure, raise, lift, gets, reads, modify, ◌>>=◌, ◌>>◌}
use wagonet.Headers.Bytes.{as_u32}
use wagonet.Headers.Status.{command_code, ping}
use wagonet.Headers.{
  RequestHeader, ResponseHeader, request_header_size, decode_request, encoded_len, encode_response,
  decode_response,
}
use wagonet.Timeouts.{TimeoutConfig, default_timeout_config}
use wagonet.Vec.{Vec, with_capacity, clear, resize, extend_with, overwrite, reserve}
use wagonet.Socket.{Socket}
use wagonet.Socket.Reading.{default_max_buffer_size, read_exact_or_closed}

-- `Ok(Ok(_)) => {}`, `Ok(Err(e)) => return Err(e)`, `Err(_) => return Err(late)`
unfoldable pub settle : Error → Timed (Result Error (Unit {0})) → Result Error (Unit {0})
settle late (in_time r) = r
settle late elapsed = err late

-- The same for an operation of tokio, whose error is converted by `e.into()`.
unfoldable pub settle_io : Error → Timed (Result IoError (Unit {0})) → Result Error (Unit {0})
unfolding from_io
settle_io late (in_time r) = from_io r
settle_io late elapsed = err late

-- A payload that never began is still cut off in the middle of a frame.
unfoldable pub settle_data : Error → ℕ → Timed (Result Error (Unit {0})) → Result Error (Unit {0})
settle_data late buf_size (in_time (err connection_closed)) =
    err (connection_closed_mid_frame 0 buf_size)
settle_data late buf_size (in_time r) = r
settle_data late buf_size elapsed = err late

unfoldable pub data_len : Option (List ℕ) → ℕ
data_len none = 0
data_len (some payload) = length payload

unfoldable pub is_none : Option (List ℕ) → Bool
is_none none = true
is_none (some payload) = false

unfoldable pub check_ack : ResponseHeader → Result Error (Unit {0})
check_ack h = if h.status == 1 then ok tt else err (from_str "Receiving response status is not OK")

module _ (socket : Socket) where
  pub record ServerTl : Type 0 where
    pub stream : socket.State
    pub buffer : Vec
    pub max_buffer_size : ℕ
    pub timeout_config : TimeoutConfig

  unfoldable pub new : socket.State → ServerTl
  unfolding with_capacity
  new stream = record {
    stream = stream;
    buffer = with_capacity default_max_buffer_size;
    max_buffer_size = default_max_buffer_size;
    timeout_config = default_timeout_config;
  }

  -- `can_reserve` is the allocator's answer to `try_reserve`.
  unfoldable pub set_max_buffer_size : (ℕ → Bool) → ℕ → Action ServerTl (Unit {0})
  unfolding reserve
  set_max_buffer_size can_reserve max_buffer_size s =
      let limit = if ltb 0 max_buffer_size then max_buffer_size else default_max_buffer_size in
      let additional = limit - length s.buffer.items in
      if can_reserve additional
      then (ok tt, record s { buffer = reserve additional s.buffer; max_buffer_size = limit })
      else (err (config (cannot_be_reserved limit)), s)

  unfoldable pub set_timeout_config : TimeoutConfig → Action ServerTl (Unit {0})
  set_timeout_config c = modify (λ s. record s { timeout_config = c })

  abbrev pub on_buffer : (Vec → Vec) → Action ServerTl (Unit {0})
  on_buffer f = modify (λ s. record s { buffer = f s.buffer })

  -- `timeout(deadline, read_exact_or_closed(&mut self.reader, &mut self.buffer))`
  unfoldable pub read_frame : ℕ → Action ServerTl (Timed (Result Error (Unit {0})))
  unfolding overwrite
  read_frame deadline s =
      let (got, bytes, stream) = read_exact_or_closed socket deadline s.buffer.items s.stream in
      (ok got, record s { stream = stream; buffer = overwrite bytes s.buffer })

  -- `timeout(deadline, self.reader.read_exact(&mut self.buffer))`
  unfoldable pub read_exact : ℕ → Action ServerTl (Timed (Result IoError (Unit {0})))
  unfolding overwrite
  read_exact deadline s =
      let (got, bytes, stream) = socket.read_exact deadline s.buffer.items s.stream in
      (ok got, record s { stream = stream; buffer = overwrite bytes s.buffer })

  -- `timeout(deadline, self.writer.write_all(bytes))`
  unfoldable pub write_all : ℕ → List ℕ → Action ServerTl (Timed (Result IoError (Unit {0})))
  write_all deadline bytes s =
      let (done, stream) = socket.write_all deadline bytes s.stream in
      (ok done, record s { stream = stream })

  -- `self.writer.flush().await?`
  unfoldable pub flush : Action ServerTl (Unit {0})
  unfolding from_io
  flush s =
      let (done, stream) = socket.flush s.stream in (from_io done, record s { stream = stream })

  unfoldable pub send_response_header :
      (status data_size : ℕ) → Bool → ℕ → Action ServerTl (Unit {0})
  unfolding write_all flush clear extend_with settle_io
  send_response_header status data_size is_default deadline = do
    on_buffer clear
    on_buffer (
        extend_with λ items.
          encode_response (record { status = status; data_size = data_size }) items is_default)
    bytes ← gets (λ s. s.buffer.items)
    done ← write_all deadline bytes
    lift (settle_io (from_str "Sending response header timeout") done)
    flush
    on_buffer clear

  unfoldable pub receive_response_header : Bool → Action ServerTl ResponseHeader
  unfolding read_exact clear resize settle_io
  receive_response_header is_default = do
    on_buffer (resize (encoded_len is_default true))
    deadline ← gets (λ s. s.timeout_config.read_header)
    got ← read_exact deadline
    lift (settle_io (from_str "Timeout waiting for response header") got)
    decoded ← reads (λ s. decode_response s.buffer.items is_default s.max_buffer_size)
    on_buffer clear
    pure decoded.0

  -- `read_command` behind the decoded header
  unfoldable pub answer_header : RequestHeader → Action ServerTl (Option (ℕ × ℕ))
  answer_header h s =
      let ping_write = s.timeout_config.ping_write in
      let write = s.timeout_config.write in
      let bad_ping = do
        send_response_header 7 0 true ping_write
        raise {A = Option (ℕ × ℕ)} (protocol (text "Ping must have data_size=0"))
      in let good_ping = do send_response_header 1 0 true ping_write; pure {A = Option (ℕ × ℕ)} none
        in let too_large = do
          send_response_header 7 0 true write
          raise {A = Option (ℕ × ℕ)} (from_str "Data size exceeds maximum allowed buffer size")
          in let accepted = do
            send_response_header 1 0 true write
            pure (some (h.command, h.data_size))
            in if h.command == command_code ping
              then (if h.data_size == 0 then good_ping s else bad_ping s)
              else if ltb s.max_buffer_size h.data_size
              then too_large s
              else accepted s

  unfoldable pub read_command : Action ServerTl (Option (ℕ × ℕ))
  unfolding read_frame clear resize settle
  read_command = do
    on_buffer (resize request_header_size)
    deadline ← gets (λ s. s.timeout_config.read_header)
    got ← read_frame deadline
    lift (settle (from_str "Timeout waiting for request header") got)
    decoded ← reads (λ s. decode_request s.buffer.items s.max_buffer_size)
    on_buffer clear
    answer_header decoded.0

  unfoldable pub read_payload : ℕ → Action ServerTl (List ℕ)
  unfolding read_frame clear resize settle_data
  read_payload buf_size = do
    on_buffer (resize buf_size)
    deadline ← gets (λ s. s.timeout_config.read_data)
    got ← read_frame deadline
    lift (settle_data (from_str "Timeout waiting for data") buf_size got)
    res ← gets (λ s. s.buffer.items)
    on_buffer clear
    pure res

  unfoldable pub receive_data : ℕ → Action ServerTl (List ℕ)
  unfolding read_payload
  receive_data buf_size s =
      if ltb s.max_buffer_size buf_size
      then (err (from_str "Invalid data size"), s)
      else read_payload buf_size s

  unfoldable pub send_payload : Option (List ℕ) → Action ServerTl (Unit {0})
  unfolding write_all settle_io
  send_payload none = pure tt
  send_payload (some payload) = do
    deadline ← gets (λ s. s.timeout_config.write)
    done ← write_all deadline payload
    lift (settle_io (from_str "Timeout sending data") done)

  unfoldable pub send_data : ℕ → Option (List ℕ) → Action ServerTl (Unit {0})
  unfolding check_ack clear data_len is_none
  send_data status buf = do
    deadline ← gets (λ s. s.timeout_config.write)
    send_response_header status (as_u32 (data_len buf)) (is_none buf) deadline
    res_header ← receive_response_header true
    lift (check_ack res_header)
    send_payload buf
    flush
    on_buffer clear
