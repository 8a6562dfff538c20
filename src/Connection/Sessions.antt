-- ===== src/Connection/Sessions.antt =====
-- A whole session of one connection, on a network that loses nothing.
use wagonet.Prelude.{
  ℕ, ◌≤◌, ◌≡◌, ◌≢◌, refl, sym, ap, ◌∙◌, true, false, not, none, some, List, [], ◌∷◌, ◌++◌,
  append-nil, append_assoc, arith, length, replicate,
}
use wagonet.Errors.{ok}
use wagonet.Headers.Bytes.{IsU32}
use wagonet.Headers.Status.{ResponseStatus, status_code}
use wagonet.Headers.{encode_request}
use wagonet.Socket.{Socket}
use wagonet.Socket.Delivery.{Network}
use wagonet.ServerTl.Transfers.{Moved, Moved-trans}
use wagonet.ServerTl.Replies.{reply_header}
use wagonet.Protocol.{CommandHandler, ProtocolHandler, server_tl_transport, handle_next, is_finish}
use wagonet.Protocol.Exchange.{handle_next_serves}
use wagonet.Connection.{Event, completes, run_loop}

pub record Request : Type 0 where
  pub command : ℕ
  pub payload : List ℕ

-- The bytes of a request, with the client's acknowledgement of the reply behind them.
unfoldable pub request_bytes : List Request → List ℕ
request_bytes [] = []
request_bytes (q ∷ qs) =
    encode_request (record { command = q.command; data_size = length q.payload }) []
    ++ (q.payload ++ 1 ∷ request_bytes qs)

append_frame : (a b c d : List ℕ) → (a ++ (b ++ 1 ∷ c)) ++ d ≡ a ++ (b ++ 1 ∷ (c ++ d))
append_frame a b c d = rw (append_assoc, append_assoc) refl

pub request_bytes_cons :
    (q : Request) (qs : List Request) (rest : List ℕ)
    → request_bytes (q ∷ qs) ++ rest
      ≡ encode_request (record { command = q.command; data_size = length q.payload }) []
        ++ (q.payload ++ 1 ∷ (request_bytes qs ++ rest))
unfolding request_bytes
request_bytes_cons q qs rest =
    append_frame (encode_request (record { command = q.command; data_size = length q.payload }) [])
      q.payload (request_bytes qs) rest

-- A request that a connection of the given limit accepts, other than a ping.
pub record IsAccepted (limit : ℕ) (q : Request) : Type 0 where
  pub command_u32 : IsU32 q.command
  pub size_u32 : IsU32 (length q.payload)
  pub no_ping : q.command ≢ 0
  pub fits : length q.payload ≤ limit

module _ (handler : CommandHandler) (limit : ℕ) where
  -- The handler answers a list of requests, goes from one state to another meanwhile, and finishes
  -- on none of them; the last index is what the server sends.
  pub data Answers : handler.Own → List Request → handler.Own → List ℕ → Type 0 where
    nothing : {own : handler.Own} → Answers own [] own []
    answer :
        {own own' own'' : handler.Own} (q : Request) {qs : List Request} (status : ResponseStatus)
        (reply : List ℕ) {out : List ℕ}
        → IsAccepted limit q
        → is_finish status ≡ false
        → handler.run q.command q.payload own ≡ (ok (status, reply), own')
        → Answers own' qs own'' out
        → Answers own
            (q ∷ qs)
            own''
            ((1 ∷ reply_header (status_code status) (some reply) ++ reply) ++ out)

module _ (socket : Socket) (net : Network socket) (handler : CommandHandler) where
  run_loop_open :
      (events : List (Event (server_tl_transport socket) handler))
      (p : ProtocolHandler (server_tl_transport socket) handler)
      → (handle_next (server_tl_transport socket) handler p).0 ≡ ok true
      → run_loop (server_tl_transport socket) handler (completes ∷ events) p
        ≡ run_loop
            (server_tl_transport socket)
            handler
            events
            (handle_next (server_tl_transport socket) handler p).1
  unfolding run_loop
  run_loop_open events p done = rw (done, run_loop) refl

  -- On a network that loses nothing, for requests that are accepted, each acknowledged by the
  -- client, and a handler that answers each of them without finishing: the connection loop serves
  -- every request in order, the handler goes through the states that the requests lead it through,
  -- the client is sent every reply whole and nothing else, just the requests are read, and the
  -- connection is still open behind the last one.
  pub run_loop_serves :
      (limit : ℕ) (qs : List Request) (rest out : List ℕ) (own own' : handler.Own)
      (p : ProtocolHandler (server_tl_transport socket) handler)
      → Answers handler limit own qs own' out
      → p.command_handler ≡ own
      → p.connection.max_buffer_size ≡ limit
      → net.pending p.connection.stream ≡ request_bytes qs ++ rest
      → let r = run_loop (server_tl_transport socket) handler (replicate (length qs) completes) p in
        (r.0 ≡ none)
        × (r.1.command_handler ≡ own')
        × Moved socket net p.connection r.1.connection rest out
  run_loop_serves limit [] rest out own own' p nothing at_own at_limit e =
      unfold run_loop request_bytes in
      (
        refl,
        at_own,
        record {
          pending_left = e;
          sent_out = sym (append-nil _);
          same_limit = refl;
          same_config = refl;
        },
      )
  run_loop_serves limit (q ∷ qs) rest _ own own' p
        (answer {own' = own1} _ status reply {out = out} good goes ran more) at_own at_limit e =
      let (done, at_own1, moved) =
        handle_next_serves socket net handler q.command q.payload (request_bytes qs ++ rest) reply
          status own1 p good.command_u32 good.size_u32 good.no_ping
          (omega (arith, at_limit, good.fits)) (e ∙ request_bytes_cons q qs rest)
          (ap (λ o. handler.run q.command q.payload o) at_own ∙ ran) in
      let next = (handle_next (server_tl_transport socket) handler p).1 in
      let (still, at_end, served) =
        run_loop_serves limit qs rest out own1 own' next more at_own1 (moved.same_limit ∙ at_limit)
          moved.pending_left in
      rw (run_loop_open (replicate (length qs) completes) p (done ∙ ap (λ b. ok (not b)) goes)) (
        still,
        at_end,
        Moved-trans socket net (request_bytes qs ++ rest) rest
            (1 ∷ reply_header (status_code status) (some reply) ++ reply) out moved served,
      )
