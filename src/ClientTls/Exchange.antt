-- ===== src/ClientTls/Exchange.antt =====
-- The calls of a TLS client (src/client_tls.rs), by way of those of the plain one, and their errors.
use wagonet.Prelude.{
  ℕ, zero, suc, ◌+◌, ◌≤◌, ◌≡◌, refl, ap, ◌∙◌, Bool, true, false, not, ◌||◌, ◌&&◌, leb, Option, none,
  some, List, [], ◌∷◌, ◌++◌, length, if◌then◌else◌, arith,
}
use wagonet.Errors.{Error, Boxed, Result, ok, err, is_disconnect}
use wagonet.Action.{proceed}
use wagonet.Action.Mirroring.{Corresponds}
use wagonet.Headers.{encode_request, encode_response}
use wagonet.Headers.Bytes.{IsU32}
use wagonet.Timeouts.{default_max_connect_retries}
use wagonet.Ping.{Locks}
use wagonet.Socket.{Socket}
use wagonet.Socket.Delivery.{Network}
use wagonet.ClientTl as Tl
use wagonet.ClientTl.Messages.{request_header}
use wagonet.ClientTl.Exchange.{Kept, handle_message_replies}
use wagonet.ClientTl.Dropping.{handle_message_drops}
use wagonet.ClientTl.Locked.{Link}
use wagonet.ClientTls.{
  Network as Dialling, ClientTls, World, Attempt, connected, handshake_failed, refused,
  attempt_elapsed, total_elapsed, unbox, is_none, needs_domain, connect_built, connect_loop,
  connect, connect_if, conclude, exchange_on, message_exchange, handle_message,
}
use wagonet.ClientTls.Connecting.{as_tl, as_dial, as_world}
use wagonet.ClientTls.Calls.{handle_message-Same}

module _ (socket : Socket) where
  pub agrees_ok :
      {A : Type 0} (a : A) (r r' : Result Error A)
      → Corresponds (λ e f. Unit {0}) r r'
      → r' ≡ ok a
      → r ≡ ok a
  agrees_ok a (ok x) (ok y) same is = rw same is
  agrees_ok a (ok x) (err y) same is = absurd same
  agrees_ok a (err x) (ok y) same is = absurd same
  agrees_ok a (err x) (err y) same is = ground arith

  agrees_err :
      {A : Type 0} (x : Error) (r r' : Result Error A)
      → Corresponds (λ e f. Unit {0}) r r'
      → r ≡ err x
      → (y : Error) × (r' ≡ err y)
  agrees_err x (ok a) (ok b) same is = ground arith
  agrees_err x (ok a) (err y) same is = absurd same
  agrees_err x (err z) (ok b) same is = absurd same
  agrees_err x (err z) (err y) same is = (y, refl)

  -- On a network that loses nothing, with keep-alive, an open TLS connection and answer mode, where
  -- the server acknowledges the request header and sends a response of status 1 with a payload
  -- within 32 bits and within the limit: the call returns that payload, has sent the request header,
  -- the message and the acknowledgement of the response, and keeps the connection for the next call.
  pub secured_message_replies :
      (net : Network socket) (w : World socket) (command : ℕ) (message reply rest : List ℕ)
      → (c : ClientTls socket) (stream : socket.State) → c.keep_alive ≡ true
      → c.tls_stream ≡ some stream
      → c.command_has_answer ≡ true
      → IsU32 (length reply)
      → length reply ≤ c.max_buffer_size
      → net.pending stream
        ≡ 1
          ∷ (encode_response (record { status = 1; data_size = length reply }) [] false
              ++ (reply ++ rest))
      → ((handle_message socket w command message c).0 ≡ ok reply)
        × Kept socket net w.now stream
            (as_tl socket (handle_message socket w command message c).1)
            rest
            ((encode_request (request_header command message) [] ++ message) ++ 1 ∷ [])
  secured_message_replies net w command message reply rest c stream alive held answers hu fits e =
      let like = handle_message-Same socket w command message c in
      let plain =
        handle_message_replies socket net (as_world socket w (as_dial socket w.network c)) command
          message reply rest (as_tl socket c) stream alive held answers hu fits e in
      (agrees_ok reply _ _ like.result_at plain.0, rw like.object_at plain.1)

  -- On any socket, with keep-alive a call over TLS that fails for whatever reason leaves no
  -- connection.
  pub secured_message_drops :
      (w : World socket) (command : ℕ) (message : List ℕ) (c : ClientTls socket) (x : Error)
      → c.keep_alive ≡ true
      → (handle_message socket w command message c).0 ≡ err x
      → (handle_message socket w command message c).1.tls_stream ≡ none
  secured_message_drops w command message c x alive failed =
      let like = handle_message-Same socket w command message c in
      let (y, plain) = agrees_err x _ _ like.result_at failed in
      let gone =
        handle_message_drops socket (as_world socket w (as_dial socket w.network c)) command message
          (as_tl socket c) y alive plain in
      ap (λ (d : Tl.ClientTl socket). d.stream) like.object_at ∙ gone

  -- The result is no error that `is_disconnect` recognises.
  abbrev Undetected : {A : Type 0} → Result Error A → Type 0
  Undetected (ok a) = Unit {0}
  Undetected (err x) = is_disconnect x ≡ false

  undetected :
      {A : Type 0} (r : Result Error A) (x : Error)
      → Undetected r
      → r ≡ err x
      → is_disconnect x ≡ false
  undetected (ok a) x hidden is = ground arith
  undetected (err y) x hidden is = ground arith

  if-Undetected :
      {A S : Type 0} (b : Bool) (x y : Result Error A × S)
      → Undetected x.0
      → Undetected y.0
      → Undetected (if b then x else y).0
  if-Undetected true x y hidden hidden' = hidden
  if-Undetected false x y hidden hidden' = hidden'

  proceed-Undetected :
      {A B S : Type 0} (g : A → S → Result Error B × S) (r : Result Error A) (s : S)
      → Undetected r
      → ((a : A) (s' : S) → Undetected (g a s').0)
      → Undetected (proceed g r s).0
  proceed-Undetected g (ok a) s hidden next = next a s
  proceed-Undetected g (err x) s hidden next = hidden

  connect_loop-Undetected :
      (left tries : ℕ) (dial : ℕ → ℕ → Attempt socket) (locks : Locks) (c : ClientTls socket)
      → Undetected (connect_loop socket left tries dial locks c).0
  unfolding connect_loop is_disconnect
  connect_loop-Undetected zero tries dial locks c =
      if-Undetected (is_none socket c.tls_stream && leb default_max_connect_retries tries) _
        (ok tt, c) refl tt
  connect_loop-Undetected (suc left) tries dial locks c =
      go (dial c.timeout_config.connect tries) refl
        (connect_loop-Undetected left (tries + 1) dial locks c)
    where
      go :
          (a : Attempt socket)
          → dial c.timeout_config.connect tries ≡ a
          → Undetected (connect_loop socket left (tries + 1) dial locks c).0
          → Undetected (connect_loop socket (suc left) tries dial locks c).0
      go (connected stream) is rest = rw (is, connect_loop) tt
      go (handshake_failed e) is rest = rw (is, connect_loop) refl
      go (refused e) is rest = rw (is, connect_loop) rest
      go attempt_elapsed is rest = rw (is, connect_loop) rest
      go total_elapsed is rest = rw (is, connect_loop) refl

  connect_built-Undetected :
      (built : Result ℕ (Unit {0})) (w : Dialling socket) (locks : Locks) (c : ClientTls socket)
      → Undetected (connect_built socket built w locks c).0
  unfolding connect_built is_disconnect
  connect_built-Undetected (ok u) w locks c =
      connect_loop-Undetected default_max_connect_retries 0 (w.dial c.accept_invalid_certs c.domain)
        locks c
  connect_built-Undetected (err e) w locks c = refl

  connect_if-Undetected :
      (needed : Bool) (w : World socket) (c : ClientTls socket)
      → Undetected (connect_if socket needed w c).0
  unfolding connect_if connect is_disconnect
  connect_if-Undetected false w c = tt
  connect_if-Undetected true w c =
      if-Undetected (needs_domain socket c) _
        (connect_built socket (w.network.build c.accept_invalid_certs) w.network w.connect_locks c)
        refl (connect_built-Undetected _ w.network w.connect_locks c)

  conclude-Undetected :
      (w : World socket) (r : Result Boxed (List ℕ)) (link : Link socket) (c : ClientTls socket)
      → Undetected (conclude socket w (unbox r) link c).0
  unfolding conclude unbox is_disconnect
  conclude-Undetected w (ok response) link c = tt
  conclude-Undetected w (err e) link c = refl

  exchange_on-Undetected :
      (w : World socket) (command : ℕ) (message : List ℕ) (s : Option socket.State)
      (c : ClientTls socket)
      → Undetected (exchange_on socket w command message s c).0
  unfolding exchange_on is_disconnect
  exchange_on-Undetected w command message none c = refl
  exchange_on-Undetected w command message (some s) c =
      conclude-Undetected w
        (message_exchange socket c command message (record { stream = s; buffer = c.buffer })).0 _ c

  -- Whatever the network and the peer do, `is_disconnect` does not hold of the error with which a
  -- call over TLS fails, also where the peer has closed the connection.
  pub handle_message_undetected :
      (w : World socket) (command : ℕ) (message : List ℕ) (c : ClientTls socket) (x : Error)
      → (handle_message socket w command message c).0 ≡ err x
      → is_disconnect x ≡ false
  unfolding handle_message
  handle_message_undetected w command message c x failed =
      undetected _ x
        (proceed-Undetected (λ u c'. exchange_on socket w command message c'.tls_stream c') _ _
          (connect_if-Undetected (not c.keep_alive || is_none socket c.tls_stream) w c)
          (λ u c'. exchange_on-Undetected w command message c'.tls_stream c'))
        failed
