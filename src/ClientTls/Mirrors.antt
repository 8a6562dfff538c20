-- ===== src/ClientTls/Mirrors.antt =====
-- The exchanges on a locked stream of src/client_tls.rs beside those of src/client_tl.rs; only their
-- errors differ.
use wagonet.Prelude.{ℕ, refl, Bool, true, false, not, ◌||◌, List, ltb, ◌==◌, if◌then◌else◌, length}
use wagonet.Errors.{
  Message, Error, IoError, Result, ok, err, text, Timed, in_time, elapsed, boxed_text,
  request_rejected, response_not_ok, response_error, buffer_overflow, from_io,
}
use wagonet.Action.{Action, BoxedAction, lift, gets, ◌>>=◌, ◌>>◌}
use wagonet.Action.Mirroring.{
  Corresponds, Mirrors, lift-Mirrors, pure-Mirrors, gets-Mirrors, modify-Mirrors, >>=-Mirrors,
  if-Mirrors,
}
use wagonet.Headers.Bytes.{as_u32}
use wagonet.Headers.{encode_request, encoded_len, encode_response, decode_response}
use wagonet.Timeouts.{TimeoutConfig}
use wagonet.Vec.{Vec, clear, resize, extend_with}
use wagonet.Socket.{Socket}
use wagonet.ClientTl.Locked as Tl
use wagonet.ClientTl.Locked.{Link}
use wagonet.ClientTls.Locked as Tls

-- Both succeed with the same value, or both fail.
abbrev pub Agree : {E F A : Type 0} → Result E A → Result F A → Type 0
Agree r r' = Corresponds (λ e f. Unit {0}) r r'

pub Agree-refl : {E A : Type 0} → (r : Result E A) → Agree r r
Agree-refl (ok a) = refl
Agree-refl (err e) = tt

module _ (socket : Socket) where
  -- Both leave the same stream and buffer, and succeed with the same value or fail.
  abbrev pub Alike : {A : Type 0} → BoxedAction (Link socket) A → Action (Link socket) A → Type 0
  Alike m n = Mirrors (λ l. l) (λ e f. Unit {0}) m n

  on_buffer-Alike : (f : Vec → Vec) → Alike (Tls.on_buffer socket f) (Tl.on_buffer socket f)
  on_buffer-Alike f = modify-Mirrors _ _ (λ l. refl)

  settle-Agree :
      (late late' : Message) (r : Timed (Result Error (Unit {0})))
      → Agree (Tls.settle late r) (Tl.settle late' r)
  unfolding Tls.settle Tl.settle
  settle-Agree late late' (in_time (ok u)) = refl
  settle-Agree late late' (in_time (err e)) = tt
  settle-Agree late late' elapsed = tt

  settle_io-Agree :
      (late late' : Message) (r : Timed (Result IoError (Unit {0})))
      → Agree (Tls.settle_io late r) (Tl.settle_io late' r)
  unfolding Tls.settle_io Tl.settle_io
  settle_io-Agree late late' (in_time (ok u)) = refl
  settle_io-Agree late late' (in_time (err e)) = tt
  settle_io-Agree late late' elapsed = tt

  from_io-Agree : {A : Type 0} (r : Result IoError A) → Agree (Tls.box_io r) (from_io r)
  unfolding Tls.box_io from_io
  from_io-Agree (ok a) = refl
  from_io-Agree (err e) = tt

  box_error-Agree : {A : Type 0} (r : Result Error A) → Agree (Tls.box_error r) r
  unfolding Tls.box_error
  box_error-Agree (ok a) = refl
  box_error-Agree (err e) = tt

  check_ack-Agree : (status : ℕ) → Agree (Tls.check_ack status) (Tl.check_status status)
  unfolding Tls.check_ack Tl.check_status
  check_ack-Agree status = either (status == 1)
    where
      either :
          (c : Bool)
          → Agree
              (if c then ok tt else err (boxed_text (request_rejected status)))
              (if c then ok tt else err (response_error status))
      either true = refl
      either false = tt

  check_status-Agree : (status : ℕ) → Agree (Tls.check_status status) (Tl.check_status status)
  unfolding Tls.check_status Tl.check_status
  check_status-Agree status = either (status == 1)
    where
      either :
          (c : Bool)
          → Agree
              (if c then ok tt else err (boxed_text (response_not_ok status)))
              (if c then ok tt else err (response_error status))
      either true = refl
      either false = tt

  check_size-Agree : (size limit : ℕ) → Agree (Tls.check_size size limit) (Tl.check_size size limit)
  unfolding Tls.check_size Tl.check_size
  check_size-Agree size limit = either (ltb limit size)
    where
      either :
          (c : Bool)
          → Agree
              (if c
                then err (boxed_text (text "Data size is more then max buffer size"))
                else ok tt)
              (if c then err (buffer_overflow size limit) else ok tt)
      either true = tt
      either false = refl

  write_all-Alike :
      (d : ℕ) (bytes : List ℕ) → Alike (Tls.write_all socket d bytes) (Tl.write_all socket d bytes)
  unfolding Tls.write_all Tl.write_all
  write_all-Alike d bytes = record { same_result = λ l. refl; same_object = λ l. refl }

  flush-Alike : Alike (Tls.flush socket) (Tl.flush socket)
  unfolding Tls.flush Tl.flush
  flush-Alike = record { same_result = λ l. from_io-Agree _; same_object = λ l. refl }

  read_exact-Alike : (d : ℕ) → Alike (Tls.read_exact socket d) (Tl.read_exact socket d)
  unfolding Tls.read_exact Tl.read_exact
  read_exact-Alike d = record { same_result = λ l. refl; same_object = λ l. refl }

  read_frame-Alike : (d : ℕ) → Alike (Tls.read_frame socket d) (Tl.read_frame socket d)
  unfolding Tls.read_frame Tl.read_frame
  read_frame-Alike d = record { same_result = λ l. refl; same_object = λ l. refl }

  items-Alike : Alike (gets (λ l. l.buffer.items)) (gets (λ l. l.buffer.items))
  items-Alike = gets-Mirrors (λ l. l.buffer.items) (λ l. l.buffer.items) (λ l. refl)

  -- What `send_request_header` and `send_response_header` share.
  send_header-Alike :
      (encode : List ℕ → List ℕ) (late late' : Message) (d : ℕ)
      → Alike
          (do
            Tls.on_buffer socket clear
            Tls.on_buffer socket (extend_with encode)
            bytes ← gets (λ l. l.buffer.items)
            done ← Tls.write_all socket d bytes
            lift (Tls.settle_io late done)
            Tls.flush socket
            Tls.on_buffer socket clear)
          (do
            Tl.on_buffer socket clear
            Tl.on_buffer socket (extend_with encode)
            bytes ← gets (λ l. l.buffer.items)
            done ← Tl.write_all socket d bytes
            lift (Tl.settle_io late' done)
            Tl.flush socket
            Tl.on_buffer socket clear)
  send_header-Alike encode late late' d = >>=-Mirrors (on_buffer-Alike clear) λ _.
      >>=-Mirrors (on_buffer-Alike (extend_with encode)) λ _. >>=-Mirrors items-Alike λ bytes.
        >>=-Mirrors (write_all-Alike d bytes) λ done.
          >>=-Mirrors
            (lift-Mirrors (Tls.settle_io late done) (Tl.settle_io late' done)
              (settle_io-Agree late late' done))
            λ _. >>=-Mirrors flush-Alike λ _. on_buffer-Alike clear

  send_request_header-Alike :
      (command size d : ℕ)
      → Alike
          (Tls.send_request_header socket command size d)
          (Tl.send_request_header socket command size d)
  unfolding Tls.send_request_header Tl.send_request_header
  send_request_header-Alike command size d =
      send_header-Alike (encode_request (record { command = command; data_size = size })) _ _ d

  send_response_header-Alike :
      (status size d : ℕ)
      → Alike
          (Tls.send_response_header socket status size d)
          (Tl.send_response_header socket status size d)
  unfolding Tls.send_response_header Tl.send_response_header
  send_response_header-Alike status size d =
      send_header-Alike
        (λ items. encode_response (record { status = status; data_size = size }) items (size == 0))
        _ _ d

  receive_response_header-Alike :
      (is_default has_answer : Bool) (d max : ℕ)
      → Alike
          (Tls.receive_response_header socket is_default has_answer d max)
          (Tl.receive_response_header socket is_default has_answer d max)
  unfolding Tls.receive_response_header Tl.receive_response_header
  receive_response_header-Alike is_default has_answer d max =
      >>=-Mirrors (on_buffer-Alike (resize (encoded_len is_default has_answer))) λ _.
        >>=-Mirrors (read_exact-Alike d) λ got.
          >>=-Mirrors
            (lift-Mirrors (Tls.settle_io (text "Timeout waiting for response header") got)
              (Tl.settle_io (text "Waiting for response header") got) (settle_io-Agree _ _ got))
            λ _. >>=-Mirrors items-Alike λ items.
              >>=-Mirrors
                (lift-Mirrors
                  (Tls.box_error (decode_response items (is_default || not has_answer) max))
                  (decode_response items (is_default || not has_answer) max) (box_error-Agree _))
                λ decoded. >>=-Mirrors (on_buffer-Alike clear) λ _. pure-Mirrors decoded.0

  pub send_message-Alike :
      (t : TimeoutConfig) (has_answer : Bool) (max command : ℕ) (message : List ℕ)
      → Alike
          (Tls.send_message socket t has_answer max command message)
          (Tl.send_message socket t has_answer max command message)
  unfolding Tls.send_message Tl.send_message
  send_message-Alike t has_answer max command message =
      >>=-Mirrors (send_request_header-Alike command (as_u32 (length message)) t.write) λ _.
        >>=-Mirrors (receive_response_header-Alike true has_answer t.read_header max) λ h.
          >>=-Mirrors
            (lift-Mirrors (Tls.check_ack h.status) (Tl.check_status h.status)
              (check_ack-Agree h.status))
            λ _. >>=-Mirrors (write_all-Alike t.write message) λ done.
              >>=-Mirrors
                (lift-Mirrors (Tls.settle_io (text "Timeout sending message data") done)
                  (Tl.settle_io (text "Sending message data") done) (settle_io-Agree _ _ done))
                λ _. >>=-Mirrors flush-Alike λ _. on_buffer-Alike clear

  receive_payload-Alike :
      (t : TimeoutConfig) (size : ℕ)
      → Alike (Tls.receive_payload socket t size) (Tl.receive_payload socket t size)
  unfolding Tls.receive_payload Tl.receive_payload
  receive_payload-Alike t size = >>=-Mirrors (on_buffer-Alike (resize size)) λ _.
      >>=-Mirrors (read_frame-Alike t.read_data) λ got.
        >>=-Mirrors
          (lift-Mirrors (Tls.settle (text "Timeout waiting for message data") got)
            (Tl.settle (text "Waiting for message data") got) (settle-Agree _ _ got))
          λ _. items-Alike

  read_response-Alike :
      (t : TimeoutConfig) (size : ℕ)
      → Alike (Tls.read_response socket t size) (Tl.read_response socket t size)
  unfolding Tls.read_response Tl.read_response
  read_response-Alike t size =
      if-Mirrors (λ l. size == 0) (λ l. size == 0) (λ l. refl)
        (record { same_result = λ l. refl; same_object = λ l. refl }) (receive_payload-Alike t size)

  pub receive_message-Alike :
      (t : TimeoutConfig) (has_answer : Bool) (max : ℕ)
      → Alike
          (Tls.receive_message socket t has_answer max)
          (Tl.receive_message socket t has_answer max)
  unfolding Tls.receive_message Tl.receive_message
  receive_message-Alike t has_answer max =
      >>=-Mirrors (receive_response_header-Alike false has_answer t.read_header max) λ h.
        >>=-Mirrors (send_response_header-Alike 1 0 t.write) λ _.
          >>=-Mirrors
            (lift-Mirrors (Tls.check_status h.status) (Tl.check_status h.status)
              (check_status-Agree h.status))
            λ _.
              >>=-Mirrors
                (lift-Mirrors (Tls.check_size h.data_size max) (Tl.check_size h.data_size max)
                  (check_size-Agree h.data_size max))
                λ _. read_response-Alike t h.data_size
