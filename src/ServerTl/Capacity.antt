-- ===== src/ServerTl/Capacity.antt =====
-- The limit of `ServerTL` of src/server_tl.rs and the capacity of its buffer, method by method.
use wagonet.Prelude.{
  ℕ, ◌≤◌, ◌≡◌, refl, ◌∙◌, Bool, true, false, Bool-cases, inl, inr, Option, none, some, List, [],
  ltb, ◌==◌, if◌then◌else◌, arith,
}
use wagonet.Errors.{Error, Result, ok, err, protocol, text, from_str}
use wagonet.Action.{lift, gets, reads, ◌>>◌}
use wagonet.Action.Keeping.{Leads, Keeps, >>=-Leads, >>=-Keeps}
use wagonet.Headers.Bytes.{as_u32}
use wagonet.Headers.Status.{command_code, ping}
use wagonet.Headers.{
  RequestHeader, ResponseHeader, request_header_size, encode_response, encoded_len, decode_request,
  decode_response,
}
use wagonet.Headers.RoundTrip.{length-encode_response}
use wagonet.Vec.{clear, resize, extend_with, overwrite}
use wagonet.Socket.{Socket}
use wagonet.ServerTl.{
  ServerTl, on_buffer, read_frame, read_exact, write_all, flush, settle, settle_io, settle_data,
  check_ack, data_len, is_none, send_response_header, receive_response_header, answer_header,
  read_command, read_payload, receive_data, send_payload, send_data,
}

module _ (socket : Socket) (limit room : ℕ) where
  -- The limit that is set, and the capacity of the buffer.
  pub record HasRoom (s : ServerTl socket) : Type 0 where
    pub at_limit : s.max_buffer_size ≡ limit
    pub at_room : s.buffer.capacity ≡ room

  record IsCleared (s : ServerTl socket) : Type 0 where
    empty : s.buffer.items ≡ []
    has : HasRoom s

  pub has_room :
      (s s' : ServerTl socket)
      → s'.max_buffer_size ≡ s.max_buffer_size
      → s'.buffer.capacity ≡ s.buffer.capacity
      → HasRoom s
      → HasRoom s'
  has_room s s' same_limit same_room has = record {
    at_limit = same_limit ∙ has.at_limit;
    at_room = same_room ∙ has.at_room;
  }

  if-HasRoom :
      {A : Type 0} (b : Bool) (x y : Result Error A × ServerTl socket)
      → HasRoom x.1
      → HasRoom y.1
      → HasRoom (if b then x else y).1
  if-HasRoom true x y has has' = has
  if-HasRoom false x y has has' = has'

  clear-Leads : Leads HasRoom IsCleared (on_buffer socket clear)
  unfolding clear
  clear-Leads = record {
    leads = λ s has. record { empty = refl; has = has_room s _ refl refl has };
  }

  clear-Keeps : Keeps HasRoom (on_buffer socket clear)
  unfolding clear
  clear-Keeps = record { leads = λ s has. has_room s _ refl refl has }

  resize-Keeps : (n : ℕ) → n ≤ room → Keeps HasRoom (on_buffer socket (resize n))
  unfolding resize
  resize-Keeps n fits = record {
    leads =
        λ s has. record { at_limit = has.at_limit; at_room = ground (arith, fits, has.at_room) };
  }

  gets-Keeps : {A : Type 0} (f : ServerTl socket → A) → Keeps {E = Error} HasRoom (gets f)
  gets-Keeps f = record { leads = λ s has. has }

  reads-Keeps : {A : Type 0} (f : ServerTl socket → Result Error A) → Keeps HasRoom (reads f)
  reads-Keeps f = record { leads = λ s has. has }

  lift-Keeps : {A : Type 0} (r : Result Error A) → Keeps HasRoom (lift r)
  lift-Keeps r = record { leads = λ s has. has }

  write_all-Keeps : (d : ℕ) (bytes : List ℕ) → Keeps HasRoom (write_all socket d bytes)
  unfolding write_all
  write_all-Keeps d bytes = record { leads = λ s has. has_room s _ refl refl has }

  flush-Keeps : Keeps HasRoom (flush socket)
  unfolding flush
  flush-Keeps = record { leads = λ s has. has_room s _ refl refl has }

  read_frame-Keeps : (d : ℕ) → Keeps HasRoom (read_frame socket d)
  unfolding read_frame overwrite
  read_frame-Keeps d = record { leads = λ s has. has_room s _ refl refl has }

  read_exact-Keeps : (d : ℕ) → Keeps HasRoom (read_exact socket d)
  unfolding read_exact overwrite
  read_exact-Keeps d = record { leads = λ s has. has_room s _ refl refl has }

  module _ (enough : 8 ≤ room) where
    encoded_len-small : (is_default : Bool) → encoded_len is_default true ≤ 5
    unfolding encoded_len
    encoded_len-small true = omega arith
    encoded_len-small false = omega arith

    encode-Leads :
        (h : ResponseHeader) (is_default : Bool)
        → Leads IsCleared HasRoom
            (on_buffer socket (extend_with λ items. encode_response h items is_default))
    unfolding extend_with
    encode-Leads h is_default = record {
      leads = λ s cleared. record {
        at_limit = cleared.has.at_limit;
        at_room =
            let short = length-encode_response h is_default in
            let small = encoded_len-small is_default in
            ground (arith, cleared.empty, cleared.has.at_room, short, small, enough);
      };
    }

    send_response_header-Keeps :
        (status size : ℕ) (is_default : Bool) (d : ℕ)
        → Keeps HasRoom (send_response_header socket status size is_default d)
    unfolding send_response_header
    send_response_header-Keeps status size is_default d =
        >>=-Leads clear-Leads (λ t cleared. cleared.has)
          λ _.
            >>=-Leads (encode-Leads (record { status = status; data_size = size }) is_default)
              (λ t has. has)
              λ _. >>=-Keeps (gets-Keeps (λ s. s.buffer.items)) λ bytes.
                >>=-Keeps (write_all-Keeps d bytes) λ done.
                  >>=-Keeps
                    (lift-Keeps (settle_io (from_str "Sending response header timeout") done))
                    λ _. >>=-Keeps flush-Keeps λ _. clear-Keeps

    receive_response_header-Keeps :
        (is_default : Bool) → Keeps HasRoom (receive_response_header socket is_default)
    unfolding receive_response_header
    receive_response_header-Keeps is_default =
        let small = encoded_len-small is_default in
        >>=-Keeps (resize-Keeps (encoded_len is_default true) (omega arith)) λ _.
          >>=-Keeps (gets-Keeps (λ s. s.timeout_config.read_header)) λ d.
            >>=-Keeps (read_exact-Keeps d) λ got.
              >>=-Keeps
                (lift-Keeps (settle_io (from_str "Timeout waiting for response header") got))
                λ _.
                  >>=-Keeps
                    (reads-Keeps (λ s. decode_response s.buffer.items is_default s.max_buffer_size))
                    λ decoded. >>=-Keeps clear-Keeps λ _. lift-Keeps (ok decoded.0)

    -- An answer to a header is a response header, and then a result.
    answered-Keeps :
        {A : Type 0} (status d : ℕ) (r : Result Error A)
        → Keeps HasRoom (do send_response_header socket status 0 true d; lift r)
    answered-Keeps status d r =
        >>=-Keeps (send_response_header-Keeps status 0 true d) λ _. lift-Keeps r

    answer_header-Keeps : (h : RequestHeader) → Keeps HasRoom (answer_header socket h)
    unfolding answer_header
    answer_header-Keeps h = record { leads = at }
      where
        bad_ping : Result Error (Option (ℕ × ℕ))
        bad_ping = err (protocol (text "Ping must have data_size=0"))

        too_large : Result Error (Option (ℕ × ℕ))
        too_large = err (from_str "Data size exceeds maximum allowed buffer size")

        at : (s : ServerTl socket) → HasRoom s → HasRoom (answer_header socket h s).1
        at s has =
            if-HasRoom (h.command == command_code ping) _ _
              (if-HasRoom (h.data_size == 0) _ _
                ((answered-Keeps 1 s.timeout_config.ping_write (ok none)).leads s has)
                ((answered-Keeps 7 s.timeout_config.ping_write bad_ping).leads s has))
              (if-HasRoom (ltb s.max_buffer_size h.data_size) _ _
                ((answered-Keeps 7 s.timeout_config.write too_large).leads s has)
                ((answered-Keeps 1 s.timeout_config.write
                    (ok (some (h.command, h.data_size)))).leads
                  s has))

    pub read_command-Keeps : Keeps HasRoom (read_command socket)
    unfolding read_command
    read_command-Keeps = >>=-Keeps (resize-Keeps request_header_size enough) λ _.
        >>=-Keeps (gets-Keeps (λ s. s.timeout_config.read_header)) λ d.
          >>=-Keeps (read_frame-Keeps d) λ got.
            >>=-Keeps (lift-Keeps (settle (from_str "Timeout waiting for request header") got)) λ _.
              >>=-Keeps (reads-Keeps (λ s. decode_request s.buffer.items s.max_buffer_size))
                λ decoded. >>=-Keeps clear-Keeps λ _. answer_header-Keeps decoded.0

    read_payload-Keeps : (n : ℕ) → n ≤ room → Keeps HasRoom (read_payload socket n)
    unfolding read_payload
    read_payload-Keeps n fits = >>=-Keeps (resize-Keeps n fits) λ _.
        >>=-Keeps (gets-Keeps (λ s. s.timeout_config.read_data)) λ d.
          >>=-Keeps (read_frame-Keeps d) λ got.
            >>=-Keeps (lift-Keeps (settle_data (from_str "Timeout waiting for data") n got)) λ _.
              >>=-Keeps (gets-Keeps (λ s. s.buffer.items))
                λ res. >>=-Keeps clear-Keeps λ _. lift-Keeps (ok res)

    pub receive_data-Keeps : (n : ℕ) → limit ≤ room → Keeps HasRoom (receive_data socket n)
    unfolding receive_data
    receive_data-Keeps n reserved = record { leads = at }
      where
        at : (s : ServerTl socket) → HasRoom s → HasRoom (receive_data socket n s).1
        at s has = elim (Bool-cases (ltb s.max_buffer_size n)) [
          | inl large ↦ rw large has
          | inr fits ↦
              rw fits
                ((read_payload-Keeps n (ground (arith, has.at_limit, reserved, fits))).leads s has)
        ]

    send_payload-Keeps : (buf : Option (List ℕ)) → Keeps HasRoom (send_payload socket buf)
    unfolding send_payload
    send_payload-Keeps none = lift-Keeps (ok tt)
    send_payload-Keeps (some payload) = >>=-Keeps (gets-Keeps (λ s. s.timeout_config.write)) λ d.
        >>=-Keeps (write_all-Keeps d payload)
          λ done. lift-Keeps (settle_io (from_str "Timeout sending data") done)

    pub send_data-Keeps :
        (status : ℕ) (buf : Option (List ℕ)) → Keeps HasRoom (send_data socket status buf)
    unfolding send_data
    send_data-Keeps status buf = >>=-Keeps (gets-Keeps (λ s. s.timeout_config.write)) λ d.
        >>=-Keeps (send_response_header-Keeps status (as_u32 (data_len buf)) (is_none buf) d) λ _.
          >>=-Keeps (receive_response_header-Keeps true) λ h.
            >>=-Keeps (lift-Keeps (check_ack h))
              λ _. >>=-Keeps (send_payload-Keeps buf) λ _. >>=-Keeps flush-Keeps λ _. clear-Keeps
