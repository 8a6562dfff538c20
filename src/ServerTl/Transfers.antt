-- ===== src/ServerTl/Transfers.antt =====
-- What each transfer of a TCP connection does on a network that loses nothing.
use wagonet.Prelude.{
  ℕ, ◌≤◌, ◌≡◌, refl, sym, ◌∙◌, Bool, true, List, [], ◌∷◌, ◌++◌, append-nil, append_assoc, length,
  le→ltb,
}
use wagonet.Errors.{Error, ok, err}
use wagonet.Headers.{
  RequestHeader, ResponseHeader, encode_request, decode_request, encode_response, decode_response,
  encoded_len,
}
use wagonet.Headers.RoundTrip.{length-encode_request}
use wagonet.Vec.{clear, resize, overwrite}
use wagonet.Vec.Length.{length-resize}
use wagonet.Socket.{Socket}
use wagonet.Socket.Reading.{read_exact_or_closed}
use wagonet.Socket.Delivery.{Network}
use wagonet.Socket.Delivery.Frames.{read_exact_or_closed_all}
use wagonet.ServerTl.{
  ServerTl, send_response_header, receive_response_header, read_command, answer_header,
  receive_data,
}

module _ (socket : Socket) (net : Network socket) where
  -- From `s` to `s'` the connection has read all but `rest` of the pending bytes, and written `out`.
  pub record Moved (s s' : ServerTl socket) (rest out : List ℕ) : Type 0 where
    pub pending_left : net.pending s'.stream ≡ rest
    pub sent_out : net.sent s'.stream ≡ net.sent s.stream ++ out
    pub same_limit : s'.max_buffer_size ≡ s.max_buffer_size
    pub same_config : s'.timeout_config ≡ s.timeout_config

  pub Moved-trans :
      {s t u : ServerTl socket} (rest rest' out out' : List ℕ)
      → Moved s t rest out
      → Moved t u rest' out'
      → Moved s u rest' (out ++ out')
  Moved-trans rest rest' out out' m n = record {
    pending_left = n.pending_left;
    sent_out = n.sent_out ∙ rw (m.sent_out, append_assoc) refl;
    same_limit = n.same_limit ∙ m.same_limit;
    same_config = n.same_config ∙ m.same_config;
  }

  -- A second move that only writes.
  pub Moved-then :
      {s t u : ServerTl socket} (rest out out' : List ℕ)
      → Moved s t rest out
      → Moved t u (net.pending t.stream) out'
      → Moved s u rest (out ++ out')
  Moved-then rest out out' m n = record {
    pending_left = n.pending_left ∙ m.pending_left;
    sent_out = n.sent_out ∙ rw (m.sent_out, append_assoc) refl;
    same_limit = n.same_limit ∙ m.same_limit;
    same_config = n.same_config ∙ m.same_config;
  }

  -- A second move that does nothing the peer can see.
  pub Moved-still :
      {s t u : ServerTl socket} (rest out : List ℕ)
      → Moved s t rest out
      → Moved t u (net.pending t.stream) []
      → Moved s u rest out
  Moved-still {s} {t} {u} rest out m n =
      rw append-nil at (Moved-then {s = s} {t = t} {u = u} rest out [] m n)

  pub send_response_header_lem :
      (status data_size : ℕ) (is_default : Bool) (d : ℕ) (s : ServerTl socket)
      → let h : ResponseHeader = record { status = status; data_size = data_size } in
        ((send_response_header socket status data_size is_default d s).0 ≡ ok tt)
        × Moved s
            (send_response_header socket status data_size is_default d s).1
            (net.pending s.stream)
            (encode_response h [] is_default)
  unfolding send_response_header
  send_response_header_lem status data_size is_default d s =
      let h : ResponseHeader = record { status = status; data_size = data_size } in
      let wrote = net.write_all_ok d (encode_response h [] is_default) s.stream in
      let flushed =
        net.flush_ok (socket.write_all d (encode_response h [] is_default) s.stream).1 in
      rw (wrote.0, flushed.0)
        (
          refl,
          record {
            pending_left = flushed.1 ∙ wrote.1;
            sent_out = flushed.2 ∙ wrote.2;
            same_limit = refl;
            same_config = refl;
          },
        )

  pub receive_default_header :
      (status : ℕ) (rest : List ℕ) (s : ServerTl socket)
      → net.pending s.stream ≡ status ∷ rest
      → ((receive_response_header socket true s).0 ≡ ok (record { status = status; data_size = 0 }))
        × Moved s (receive_response_header socket true s).1 rest []
  unfolding receive_response_header decode_response encoded_len
  receive_default_header status rest s e =
      let got =
        net.read_exact_all s.timeout_config.read_header (resize 1 s.buffer).items s.stream
          (status ∷ []) rest e (sym (length-resize 1 s.buffer)) in
      rw (got.0, got.1)
        (
          refl,
          record {
            pending_left = got.2;
            sent_out = got.3 ∙ sym (append-nil _);
            same_limit = refl;
            same_config = refl;
          },
        )

  -- A request header is read, checked against the limit, and handed to `answer_header`.
  pub read_command_accepts :
      (h : RequestHeader) (rest : List ℕ) (s : ServerTl socket)
      → net.pending s.stream ≡ encode_request h [] ++ rest
      → decode_request (encode_request h []) s.max_buffer_size ≡ ok (h, [])
      → (t : ServerTl socket) × (read_command socket s ≡ answer_header socket h t)
        × Moved s t rest []
  unfolding read_command
  read_command_accepts h rest s e decodes =
      let got =
        read_exact_or_closed_all socket net s.timeout_config.read_header (resize 8 s.buffer).items
          s.stream (encode_request h []) rest e
          (length-encode_request h ∙ sym (length-resize 8 s.buffer)) in
      let r =
        read_exact_or_closed socket s.timeout_config.read_header (resize 8 s.buffer).items
          s.stream in
      (
        record s { stream = r.2; buffer = clear (overwrite r.1 (resize 8 s.buffer)) },
        rw (got.0, got.1, decodes) refl,
        record {
          pending_left = got.2.pending_left;
          sent_out = got.2.sent_kept ∙ sym (append-nil _);
          same_limit = refl;
          same_config = refl;
        },
      )

  -- A header that is refused is consumed, and nothing is written.
  pub read_command_refuses :
      (h : RequestHeader) (rest : List ℕ) (s : ServerTl socket) (e : Error)
      → net.pending s.stream ≡ encode_request h [] ++ rest
      → decode_request (encode_request h []) s.max_buffer_size ≡ err e
      → ((read_command socket s).0 ≡ err e) × Moved s (read_command socket s).1 rest []
  unfolding read_command
  read_command_refuses h rest s x e refused =
      let got =
        read_exact_or_closed_all socket net s.timeout_config.read_header (resize 8 s.buffer).items
          s.stream (encode_request h []) rest e
          (length-encode_request h ∙ sym (length-resize 8 s.buffer)) in
      rw (got.0, got.1, refused)
        (
          refl,
          record {
            pending_left = got.2.pending_left;
            sent_out = got.2.sent_kept ∙ sym (append-nil _);
            same_limit = refl;
            same_config = refl;
          },
        )

  -- A payload of an accepted size is read to its end.
  pub receive_data_all :
      (payload rest : List ℕ) (s : ServerTl socket)
      → net.pending s.stream ≡ payload ++ rest
      → length payload ≤ s.max_buffer_size
      → ((receive_data socket (length payload) s).0 ≡ ok payload)
        × Moved s (receive_data socket (length payload) s).1 rest []
  unfolding receive_data
  receive_data_all payload rest s e fits =
      let n = length payload in
      let got =
        read_exact_or_closed_all socket net s.timeout_config.read_data (resize n s.buffer).items
          s.stream payload rest e (sym (length-resize n s.buffer)) in
      rw (le→ltb s.max_buffer_size n fits, receive_data)
        (rw (got.0, got.1)
          (
            refl,
            record {
              pending_left = got.2.pending_left;
              sent_out = got.2.sent_kept ∙ sym (append-nil _);
              same_limit = refl;
              same_config = refl;
            },
          ))
