-- ===== src/ServerTls/Mirrors.antt =====
-- `ServerTLS` of src/server_tls.rs beside `ServerTL` of src/server_tl.rs, method by method.
use wagonet.Prelude.{ℕ, ◌≡◌, refl, Bool, true, Option, none, some, List, ltb, ◌==◌}
use wagonet.Errors.{Error, Result, ok, err, text, protocol, from_str}
use wagonet.Action.{Action, lift, ◌>>◌}
use wagonet.Action.Mirroring.{
  Mirrors, lift-Mirrors, pure-Mirrors, gets-Mirrors, reads-Mirrors, if-Mirrors, MirrorsAt,
  if-MirrorsAt, mirrors_at, same_refl, modify-Mirrors, >>=-Mirrors,
}
use wagonet.Headers.{
  RequestHeader, encode_response, encoded_len, decode_response, decode_request, request_header_size,
}
use wagonet.Headers.Bytes.{as_u32}
use wagonet.Headers.Status.{command_code, ping}
use wagonet.Socket.{Socket}
use wagonet.Vec.{Vec, clear, resize, extend_with}
use wagonet.ServerTl
use wagonet.ServerTl.{ServerTl}
use wagonet.ServerTls
use wagonet.ServerTls.{ServerTls}

module _ (socket : Socket) where
  -- The same connection, as a `ServerTL`.
  abbrev pub as_tl : ServerTls socket → ServerTl socket
  as_tl s = record {
    stream = s.tls_stream;
    buffer = s.buffer;
    max_buffer_size = s.max_buffer_size;
    timeout_config = s.timeout_config;
  }

  -- Both do the same on the same connection.
  abbrev pub Same : {A : Type 0} → Action (ServerTls socket) A → Action (ServerTl socket) A → Type 0
  Same m n = Mirrors as_tl (λ e f. e ≡ f) m n

  lift-Same : {A : Type 0} (r : Result Error A) → Same (lift r) (lift r)
  lift-Same r = lift-Mirrors r r (same_refl r)

  on_buffer-Same :
      (f : Vec → Vec) → Same (ServerTls.on_buffer socket f) (ServerTl.on_buffer socket f)
  on_buffer-Same f = modify-Mirrors _ _ (λ s. refl)

  write_all-Same :
      (d : ℕ) (bytes : List ℕ)
      → Same (ServerTls.write_all socket d bytes) (ServerTl.write_all socket d bytes)
  unfolding ServerTls.write_all ServerTl.write_all
  write_all-Same d bytes = record { same_result = λ s. refl; same_object = λ s. refl }

  pub flush-Same : Same (ServerTls.flush socket) (ServerTl.flush socket)
  unfolding ServerTls.flush ServerTl.flush
  flush-Same = record { same_result = λ s. same_refl _; same_object = λ s. refl }

  read_exact-Same : (d : ℕ) → Same (ServerTls.read_exact socket d) (ServerTl.read_exact socket d)
  unfolding ServerTls.read_exact ServerTl.read_exact
  read_exact-Same d = record { same_result = λ s. refl; same_object = λ s. refl }

  read_frame-Same : (d : ℕ) → Same (ServerTls.read_frame socket d) (ServerTl.read_frame socket d)
  unfolding ServerTls.read_frame ServerTl.read_frame
  read_frame-Same d = record { same_result = λ s. refl; same_object = λ s. refl }

  send_response_header-Same :
      (status data_size : ℕ) (is_default : Bool) (d : ℕ)
      → Same
          (ServerTls.send_response_header socket status data_size is_default d)
          (ServerTl.send_response_header socket status data_size is_default d)
  unfolding ServerTls.send_response_header ServerTl.send_response_header
  send_response_header-Same status data_size is_default d = >>=-Mirrors (on_buffer-Same clear) λ _.
      >>=-Mirrors
        (on_buffer-Same (
          extend_with λ items.
            encode_response (record { status = status; data_size = data_size }) items is_default))
        λ _.
          >>=-Mirrors (gets-Mirrors (λ s. s.buffer.items) (λ s. s.buffer.items) (λ s. refl))
            λ bytes. >>=-Mirrors (write_all-Same d bytes) λ done.
              >>=-Mirrors
                (lift-Same (ServerTl.settle_io (from_str "Sending response header timeout") done))
                λ _. >>=-Mirrors flush-Same λ _. on_buffer-Same clear

  receive_response_header-Same :
      (is_default : Bool)
      → Same
          (ServerTls.receive_response_header socket is_default)
          (ServerTl.receive_response_header socket is_default)
  unfolding ServerTls.receive_response_header ServerTl.receive_response_header
  receive_response_header-Same is_default =
      >>=-Mirrors (on_buffer-Same (resize (encoded_len is_default true))) λ _.
        >>=-Mirrors
          (gets-Mirrors (λ s. s.timeout_config.read_header) (λ s. s.timeout_config.read_header)
            (λ s. refl))
          λ d. >>=-Mirrors (read_exact-Same d) λ got.
            >>=-Mirrors
              (lift-Same (ServerTl.settle_io (from_str "Timeout waiting for response header") got))
              λ _.
                >>=-Mirrors
                  (reads-Mirrors (λ s. decode_response s.buffer.items is_default s.max_buffer_size)
                    (λ s. decode_response s.buffer.items is_default s.max_buffer_size)
                    (λ s. same_refl _))
                  λ decoded. >>=-Mirrors (on_buffer-Same clear) λ _. pure-Mirrors decoded.0

  -- Sends a one-byte header, then ends with `r`.
  answers-Same :
      {A : Type 0} (status d : ℕ) (r : Result Error A)
      → Same
          (do ServerTls.send_response_header socket status 0 true d; lift r)
          (do ServerTl.send_response_header socket status 0 true d; lift r)
  answers-Same status d r = >>=-Mirrors (send_response_header-Same status 0 true d) λ _. lift-Same r

  answer_header_at :
      (h : RequestHeader) (s : ServerTls socket)
      → MirrorsAt as_tl
          (λ e f. e ≡ f)
          (ServerTls.answer_header socket h s)
          (ServerTl.answer_header socket h (as_tl s))
  unfolding ServerTls.answer_header ServerTl.answer_header
  answer_header_at h s =
      let ping_write = s.timeout_config.ping_write in
      let write = s.timeout_config.write in
      if-MirrorsAt (h.command == command_code ping)
        (if-MirrorsAt (h.data_size == 0) (mirrors_at (answers-Same 1 ping_write (ok none)) s) (
          mirrors_at
            (answers-Same 7 ping_write (err (protocol (text "Ping must have data_size=0")))) s))
        (if-MirrorsAt (ltb s.max_buffer_size h.data_size)
          (mirrors_at
            (answers-Same 7 write (err (from_str "Data size exceeds maximum allowed buffer size")))
            s)
          (mirrors_at (answers-Same 1 write (ok (some (h.command, h.data_size)))) s))

  answer_header-Same :
      (h : RequestHeader)
      → Same (ServerTls.answer_header socket h) (ServerTl.answer_header socket h)
  answer_header-Same h = record {
    same_result = λ s. (answer_header_at h s).result_at;
    same_object = λ s. (answer_header_at h s).object_at;
  }

  pub read_command-Same : Same (ServerTls.read_command socket) (ServerTl.read_command socket)
  unfolding ServerTls.read_command ServerTl.read_command
  read_command-Same = >>=-Mirrors (on_buffer-Same (resize request_header_size)) λ _.
      >>=-Mirrors
        (gets-Mirrors (λ s. s.timeout_config.read_header) (λ s. s.timeout_config.read_header)
          (λ s. refl))
        λ d. >>=-Mirrors (read_frame-Same d) λ got.
          >>=-Mirrors
            (lift-Same (ServerTl.settle (from_str "Timeout waiting for request header") got))
            λ _.
              >>=-Mirrors
                (reads-Mirrors (λ s. decode_request s.buffer.items s.max_buffer_size)
                  (λ s. decode_request s.buffer.items s.max_buffer_size) (λ s. same_refl _))
                λ decoded. >>=-Mirrors (on_buffer-Same clear) λ _. answer_header-Same decoded.0

  read_payload-Same :
      (size : ℕ) → Same (ServerTls.read_payload socket size) (ServerTl.read_payload socket size)
  unfolding ServerTls.read_payload ServerTl.read_payload
  read_payload-Same size = >>=-Mirrors (on_buffer-Same (resize size)) λ _.
      >>=-Mirrors
        (gets-Mirrors (λ s. s.timeout_config.read_data) (λ s. s.timeout_config.read_data)
          (λ s. refl))
        λ d. >>=-Mirrors (read_frame-Same d) λ got.
          >>=-Mirrors
            (lift-Same (ServerTl.settle_data (from_str "Timeout waiting for data") size got))
            λ _.
              >>=-Mirrors (gets-Mirrors (λ s. s.buffer.items) (λ s. s.buffer.items) (λ s. refl))
                λ res. >>=-Mirrors (on_buffer-Same clear) λ _. pure-Mirrors res

  pub receive_data-Same :
      (size : ℕ) → Same (ServerTls.receive_data socket size) (ServerTl.receive_data socket size)
  unfolding ServerTls.receive_data ServerTl.receive_data
  receive_data-Same size =
      if-Mirrors (λ s. ltb s.max_buffer_size size) (λ s. ltb s.max_buffer_size size) (λ s. refl)
        (lift-Same (err (from_str "Invalid data size"))) (read_payload-Same size)

  send_payload-Same :
      (buf : Option (List ℕ))
      → Same (ServerTls.send_payload socket buf) (ServerTl.send_payload socket buf)
  unfolding ServerTls.send_payload ServerTl.send_payload
  send_payload-Same none = pure-Mirrors tt
  send_payload-Same (some payload) =
      >>=-Mirrors
        (gets-Mirrors (λ s. s.timeout_config.write) (λ s. s.timeout_config.write) (λ s. refl))
        λ d.
          >>=-Mirrors (write_all-Same d payload)
            λ done. lift-Same (ServerTl.settle_io (from_str "Timeout sending data") done)

  pub send_data-Same :
      (status : ℕ) (buf : Option (List ℕ))
      → Same (ServerTls.send_data socket status buf) (ServerTl.send_data socket status buf)
  unfolding ServerTls.send_data ServerTl.send_data
  send_data-Same status buf =
      >>=-Mirrors
        (gets-Mirrors (λ s. s.timeout_config.write) (λ s. s.timeout_config.write) (λ s. refl))
        λ d.
          >>=-Mirrors
            (send_response_header-Same status (as_u32 (ServerTl.data_len buf))
              (ServerTl.is_none buf) d)
            λ _. >>=-Mirrors (receive_response_header-Same true) λ h.
              >>=-Mirrors (lift-Same (ServerTl.check_ack h)) λ _.
                >>=-Mirrors (send_payload-Same buf)
                  λ _. >>=-Mirrors flush-Same λ _. on_buffer-Same clear
