-- ===== src/Examples/Pings.antt =====
-- What the loops of examples/transport do with requests and with a ping, on a network that loses
-- nothing.
use wagonet.Prelude.{
  ℕ, zero, suc, ◌≤◌, ◌<◌, ◌≢◌, ◌⊎◌, inl, inr, Bool-cases, ◌≡◌, refl, sym, ap, ◌∙◌, Bool, true,
  false, some, List, [], ◌∷◌, ◌++◌, append-nil, append_assoc, arith, length, ◌==◌,
}
use wagonet.Errors.{Error, from_str, connection_closed, connection_closed_mid_frame, ok, err}
use wagonet.Headers.{RequestHeader, encode_request}
use wagonet.Socket.{Socket}
use wagonet.Socket.Delivery.{Network}
use wagonet.Headers.{request_header_size}
use wagonet.Vec.{resize}
use wagonet.Vec.Length.{length-resize}
use wagonet.Socket.Delivery.Frames.{read_exact_or_closed_short}
use wagonet.ServerTl.{ServerTl, settle, read_command, send_data}
use wagonet.ServerTl.Transfers.{Moved, Moved-trans, receive_data_all}
use wagonet.ServerTl.Commands.{reply_to_command, reply_to_ping, read_command_replies}
use wagonet.ServerTl.Replies.{reply_header, payload_of, send_data_acknowledged}
use wagonet.Connection.Sessions.{Request, request_bytes, request_bytes_cons, IsAccepted}
use wagonet.Examples.Serving.{
  leaves, fails, Style, receive, after_command, serving_loop, tcp_receive, tcp_loop,
}

abbrev pub AreAccepted : ℕ → List Request → Type 0
AreAccepted limit [] = Unit
AreAccepted limit (q ∷ qs) = IsAccepted limit q × AreAccepted limit qs

abbrev pub ping_bytes : List ℕ
ping_bytes = encode_request (record { command = 0; data_size = 0 }) []

module _ (socket : Socket) (lossy : List ℕ → List ℕ) (style : Style) where
  -- What the client of such a server is sent for a list of requests.
  unfoldable pub echo_bytes : List Request → List ℕ
  echo_bytes [] = []
  echo_bytes (q ∷ qs) =
      let text = style.prefix ++ lossy q.payload in
      (1 ∷ reply_header 1 (some text) ++ text) ++ echo_bytes qs

is_empty : (bytes : List ℕ) → (bytes ≡ []) ⊎ (bytes ≢ [])
is_empty [] = inl refl
is_empty (b ∷ bytes) = inr (ground arith)

module _ (socket : Socket) (net : Network socket) (lossy : List ℕ → List ℕ) (style : Style) where
  receive-all :
      (payload rest : List ℕ) (t : ServerTl socket)
      → net.pending t.stream ≡ payload ++ rest
      → length payload ≤ t.max_buffer_size
      → ((tcp_receive socket lossy style (length payload) t).0 ≡ ok payload)
        × Moved socket net t (tcp_receive socket lossy style (length payload) t).1 rest []
  unfolding receive
  receive-all payload rest t e fits = go style.skips_empty payload refl e fits
    where
      go :
          (skips : Bool) (payload : List ℕ)
          → style.skips_empty ≡ skips
          → net.pending t.stream ≡ payload ++ rest
          → length payload ≤ t.max_buffer_size
          → ((tcp_receive socket lossy style (length payload) t).0 ≡ ok payload)
            × Moved socket net t (tcp_receive socket lossy style (length payload) t).1 rest []
      go false payload at_style e fits =
          rw (at_style, receive) (receive_data_all socket net payload rest t e fits)
      go true (b ∷ bytes) at_style e fits =
          let nonempty : (suc (length bytes) == 0) ≡ false = ground arith in
          rw (at_style, nonempty, receive) (receive_data_all socket net (b ∷ bytes) rest t e fits)
      go true [] at_style e fits =
          rw (at_style, receive)
            (
              refl,
              record {
                pending_left = e;
                sent_out = sym (append-nil _);
                same_limit = refl;
                same_config = refl;
              },
            )

  one_request :
      (q : Request) (rest : List ℕ) (s : ServerTl socket) (rounds : ℕ)
      → IsAccepted s.max_buffer_size q
      → net.pending s.stream
        ≡ encode_request (record { command = q.command; data_size = length q.payload }) []
          ++ (q.payload ++ 1 ∷ rest)
      → (s' : ServerTl socket) × (tcp_loop socket lossy style (suc rounds) s
          ≡ tcp_loop socket lossy style rounds s')
        × Moved socket net s s' rest (
            1 ∷ reply_header 1 (some (style.prefix ++ lossy q.payload))
            ++ (style.prefix ++ lossy q.payload))
  unfolding serving_loop after_command
  one_request q rest s rounds good e =
      let h : RequestHeader = record { command = q.command; data_size = length q.payload } in
      let header =
        read_command_replies socket net h (q.payload ++ 1 ∷ rest) s good.command_u32 good.size_u32
          e in
      let promised = reply_to_command h s.max_buffer_size good.fits good.no_ping in
      let s1 = (read_command socket s).1 in
      let moved : Moved socket net s s1 (q.payload ++ 1 ∷ rest) (1 ∷ []) =
        rw promised at header.1 in
      let body =
        receive-all q.payload (1 ∷ rest) s1 moved.pending_left
          (omega (arith, moved.same_limit, good.fits)) in
      let s2 = (tcp_receive socket lossy style (length q.payload) s1).1 in
      let text = style.prefix ++ lossy q.payload in
      let sent = send_data_acknowledged socket net 1 (some text) rest s2 body.1.pending_left in
      (
        (send_data socket 1 (some text) s2).1,
        rw (header.0 ∙ ap (λ p. p.0) promised, serving_loop)
            (rw (body.0, serving_loop) (rw (sent.0, serving_loop) refl)),
        unfold payload_of in
            Moved-trans socket net (1 ∷ rest) rest (1 ∷ []) (reply_header 1 (some text) ++ text)
              (rw append-nil at (
                Moved-trans socket net (q.payload ++ 1 ∷ rest) (1 ∷ rest) (1 ∷ []) [] moved body.1))
              sent.1,
      )

  -- On a network that loses nothing, for requests that are accepted, each acknowledged by the client,
  -- with a ping behind them, and a loop that may take more rounds than there are requests: the loop
  -- answers every request with status 1 and the payload behind its prefix, and answers the ping; then it
  -- is left, whatever comes behind the ping is not read, and nothing else was sent.
  pub serving_loop_pinged :
      (qs : List Request) (rounds : ℕ) (rest : List ℕ) (s : ServerTl socket)
      → length qs < rounds
      → AreAccepted s.max_buffer_size qs
      → net.pending s.stream ≡ request_bytes qs ++ (ping_bytes ++ rest)
      → let served = tcp_loop socket lossy style rounds s in
        (served.0 ≡ some leaves)
        × Moved socket net s served.1 rest (echo_bytes socket lossy style qs ++ 1 ∷ [])
  unfolding serving_loop after_command echo_bytes request_bytes
  serving_loop_pinged qs zero rest s enough good e = absurd (omega arith)
  serving_loop_pinged [] (suc rounds) rest s enough good e =
      let h : RequestHeader = record { command = 0; data_size = 0 } in
      let header = read_command_replies socket net h rest s (omega arith) (omega arith) e in
      let promised = reply_to_ping h s.max_buffer_size (omega arith) refl refl in
      rw (header.0 ∙ ap (λ q. q.0) promised, serving_loop) (refl, rw promised at header.1)
  serving_loop_pinged (q ∷ qs) (suc rounds) rest s enough (good, more) e =
      let text = style.prefix ++ lossy q.payload in
      let (s', goes, moved) =
        one_request q (request_bytes qs ++ (ping_bytes ++ rest)) s rounds good
          (e ∙ request_bytes_cons q qs (ping_bytes ++ rest)) in
      let (left, after) =
        serving_loop_pinged qs rounds rest s' (omega arith) (rw moved.same_limit more)
          moved.pending_left in
      rw goes (
        left,
        rw
            (append_assoc (1 ∷ reply_header 1 (some text) ++ text)
              (echo_bytes socket lossy style qs) (1 ∷ []))
            (Moved-trans socket net (request_bytes qs ++ (ping_bytes ++ rest)) rest _
              (echo_bytes socket lossy style qs ++ 1 ∷ []) moved after),
      )

  -- A client that goes away, or stays silent, between two requests or inside a header.
  read_command-short :
      (s : ServerTl socket)
      → length (net.pending s.stream) < request_header_size
      → (e : Error) × ((read_command socket s).0 ≡ err e)
  unfolding read_command settle
  read_command-short s short =
      let buffer = resize request_header_size s.buffer in
      let law =
        read_exact_or_closed_short socket net s.timeout_config.read_header buffer.items s.stream
          (rw (length-resize request_header_size s.buffer) short) in
      elim (Bool-cases (net.is_closed s.stream)) [
        | inr silent ↦ (
          from_str "Timeout waiting for request header",
          rw (law.0 silent, read_command, settle) refl,
        )
        | inl shut ↦ elim (is_empty (net.pending s.stream)) [
          | inl none_left ↦
              (connection_closed, rw (law.1 shut none_left, read_command, settle) refl)
          | inr some_left ↦ (
            connection_closed_mid_frame (length (net.pending s.stream)) (length buffer.items),
            rw (law.2 shut some_left, read_command, settle) refl,
          )
        ]
      ]

  -- On a network that loses nothing, where fewer bytes than a header are to come, whether the client
  -- has closed the connection or stays silent: a loop of at least one round fails with an error.
  pub serving_loop_abandoned :
      (rounds : ℕ) (s : ServerTl socket)
      → length (net.pending s.stream) < request_header_size
      → (e : Error) × ((tcp_loop socket lossy style (suc rounds) s).0 ≡ some (fails e))
  unfolding serving_loop after_command
  serving_loop_abandoned rounds s short =
      let (e, failed) = read_command-short s short in (e, rw (failed, serving_loop) refl)
