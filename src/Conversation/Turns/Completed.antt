-- ===== src/Conversation/Turns/Completed.antt =====
-- An exchange in which each end hears only what the other has written comes to its end: what the
-- server writes, and the turns of src/client_tl.rs and src/protocol_handler.rs together.
use wagonet.Prelude.{
  ℕ, ◌≤◌, ◌<◌, ◌≡◌, ◌≢◌, refl, sym, ap, ◌∙◌, true, false, some, List, [], ◌∷◌, ◌++◌, append-nil,
  ◌⊎◌, inl, inr, arith, length,
}
use wagonet.Errors.{ok}
use wagonet.Headers.Bytes.{IsU32, as_u32}
use wagonet.Headers.Status.{ok_status, status_code}
use wagonet.Headers.{encode_request}
use wagonet.Socket.{Socket}
use wagonet.Socket.Delivery.{Network, Inlet}
use wagonet.ServerTl.Transfers.{Moved}
use wagonet.ServerTl.Replies.{reply_header}
use wagonet.Protocol.{CommandHandler, ProtocolHandler, server_tl_transport, handle_next}
use wagonet.Protocol.Exchange.{handle_next_serves}
use wagonet.Protocol.Stalls.{handle_next_says_ack, handle_next_says_header}
use wagonet.ClientTl.{ClientTl, World, handle_message}
use wagonet.ClientTl.Exchange.{Kept}
use wagonet.Conversation.{client_writes, server_writes, server_reads, conversation}
use wagonet.Conversation.Hearing.{written_lem, hearing}
use wagonet.Conversation.Turns.{
  client_says, server_says, turn, turns, turn_lem, asked, client_first, client_second, client_third,
}

empty_or_longer : (l : List ℕ) → (l ≡ []) ⊎ (0 < length l)
empty_or_longer [] = inl refl
empty_or_longer (b ∷ l) = inr (omega arith)

module _ (socket : Socket) (net : Network socket) (inlet : Inlet socket net)
    (handler : CommandHandler) (c : ClientTl socket) (stream : socket.State)
    (p : ProtocolHandler (server_tl_transport socket) handler) (command : ℕ)
    (message reply : List ℕ) (own' : handler.Own) where
  -- An idle connection in answer mode, and a request that the server accepts and answers by `reply`.
  pub record IsReady : Type 0 where
    pub idle : net.pending stream ≡ []
    pub silent : net.is_closed stream ≡ false
    pub quiet : net.pending p.connection.stream ≡ []
    pub alive : c.keep_alive ≡ true
    pub answers : c.command_has_answer ≡ true
    pub command_u32 : IsU32 command
    pub no_ping : command ≢ 0
    pub message_u32 : IsU32 (length message)
    pub reply_u32 : IsU32 (length reply)
    pub message_fits : length message ≤ p.connection.max_buffer_size
    pub reply_fits : length reply ≤ c.max_buffer_size
    pub ran : handler.run command message p.command_handler ≡ (ok (ok_status, reply), own')

  abbrev Handler : Type 0
  Handler = ProtocolHandler (server_tl_transport socket) handler

  abbrev replied : List ℕ
  replied = reply_header (status_code ok_status) (some reply)

  abbrev says : List ℕ → List ℕ
  says heard = server_says socket net inlet handler c stream p command message heard

  abbrev turned : ℕ → List ℕ × List ℕ
  turned n = turns socket net inlet handler c stream p command message n

  abbrev take_turn : List ℕ × List ℕ → List ℕ × List ℕ
  take_turn before = turn socket net inlet handler c stream p command message before

  module _ (r : IsReady) where
    abbrev hears : List ℕ → Handler
    hears bytes = hearing socket net inlet handler bytes p

    hears_is : (bytes : List ℕ) → net.pending (hears bytes).connection.stream ≡ bytes
    unfolding hearing
    hears_is bytes = inlet.arrive_pending bytes p.connection.stream ∙ ap (λ l. l ++ bytes) r.quiet

    says_lem :
        (heard out : List ℕ)
        → net.sent
            (handle_next (server_tl_transport socket) handler (hears heard)).1.connection.stream
          ≡ net.sent (hears heard).connection.stream ++ out
        → says heard ≡ out
    unfolding server_says hearing
    says_lem heard out e =
        written_lem socket net p.connection.stream
          (handle_next (server_tl_transport socket) handler (hears heard)).1.connection.stream out
          (e ∙ ap (λ l. l ++ out) (inlet.arrive_sent heard p.connection.stream))

    abbrev request : List ℕ
    request = asked socket net inlet handler c stream p command message

    exact : request ≡ encode_request (record { command = command; data_size = length message }) []
    exact =
        let small = r.message_u32 in
        let whole : as_u32 (length message) ≡ length message = omega arith in
        ap (λ n. encode_request (record { command = command; data_size = n }) []) whole

    server_first : 0 < length message → says request ≡ 1 ∷ []
    unfolding hearing
    server_first some_bytes = says_lem request (1 ∷ []) (
        handle_next_says_ack socket net handler command message (hears request) r.command_u32
          r.message_u32 r.no_ping r.message_fits some_bytes (hears_is request ∙ exact))

    server_second : says (request ++ message) ≡ 1 ∷ replied
    unfolding hearing
    server_second = says_lem (request ++ message) (1 ∷ replied) (
        handle_next_says_header socket net handler command message (hears (request ++ message))
          r.command_u32 r.message_u32 r.no_ping r.message_fits ok_status reply own' r.ran
          (hears_is (request ++ message) ∙ ap (λ h. h ++ message) exact))

    server_third : says (client_writes command message) ≡ server_writes reply
    unfolding hearing server_writes
    server_third =
        let bytes = client_writes command message in
        says_lem bytes (server_writes reply) (
          (handle_next_serves socket net handler command message [] reply ok_status own'
            (hears bytes) r.command_u32 r.message_u32 r.no_ping r.message_fits
            (hears_is bytes ∙ server_reads command message r.message_u32) r.ran).2.sent_out)

    client_hears :
        (rest heard : List ℕ)
        → heard ≡ 1 ∷ (replied ++ rest)
        → client_says socket net inlet handler c stream p command message heard
          ≡ client_writes command message
    client_hears rest heard e =
        ap (λ h. client_says socket net inlet handler c stream p command message h) e
        ∙ client_third socket net inlet handler c stream p command message r.idle r.silent r.answers
            reply rest r.reply_u32 r.reply_fits

    -- Once the header of the reply has come, a turn completes the exchange.
    last_turn :
        (rest : List ℕ) (before : List ℕ × List ℕ)
        → before.1 ≡ 1 ∷ (replied ++ rest)
        → take_turn before ≡ (client_writes command message, server_writes reply)
    last_turn rest before e =
        turn_lem socket net inlet handler c stream p command message before
          (client_writes command message) (server_writes reply) (client_hears rest before.1 e)
          server_third

    turn_again :
        take_turn (client_writes command message, server_writes reply)
        ≡ (client_writes command message, server_writes reply)
    turn_again =
        last_turn reply (client_writes command message, server_writes reply)
          (unfold server_writes in refl)

    first : client_says socket net inlet handler c stream p command message [] ≡ request
    first =
        client_first socket net inlet handler c stream p command message r.idle r.silent r.answers

    -- A request with a payload takes three turns.
    three_turns :
        0 < length message → turned 3 ≡ (client_writes command message, server_writes reply)
    unfolding turns
    three_turns some_bytes =
        let one =
          turn_lem socket net inlet handler c stream p command message ([], []) request (1 ∷ [])
            first (server_first some_bytes) in
        let two =
          turn_lem socket net inlet handler c stream p command message (request, 1 ∷ [])
            (request ++ message) (1 ∷ replied)
            (client_second socket net inlet handler c stream p command message r.idle r.silent
              r.answers)
            server_second in
        ap (λ t. take_turn (take_turn t)) one
        ∙ ap take_turn two
        ∙ last_turn [] (request ++ message, 1 ∷ replied)
            (ap (λ l. 1 ∷ l) (sym (append-nil replied)))

    -- One without takes two, and the third adds nothing.
    two_turns : message ≡ [] → turned 3 ≡ (client_writes command message, server_writes reply)
    unfolding turns
    two_turns empty =
        let plain : request ≡ request ++ message =
          sym (append-nil request) ∙ ap (λ m. request ++ m) (sym empty) in
        let one =
          turn_lem socket net inlet handler c stream p command message ([], []) (request ++ message)
            (1 ∷ replied) (first ∙ plain) server_second in
        ap (λ t. take_turn (take_turn t)) one
        ∙ ap take_turn (
            last_turn [] (request ++ message, 1 ∷ replied)
              (ap (λ l. 1 ∷ l) (sym (append-nil replied))))
        ∙ turn_again

    turns_complete : turned 3 ≡ (client_writes command message, server_writes reply)
    turns_complete = elim (empty_or_longer message) [
      | inl empty ↦ two_turns empty
      | inr some_bytes ↦ three_turns some_bytes
    ]

    -- On a network that loses nothing, a client with keep-alive and in answer mode has an open
    -- connection on which neither end has anything to read, the request is one that the server
    -- accepts, and the handler replies to it with status 1 and a payload within 32 bits and within
    -- the client's limit. Each end hears only what the other has written up to then, starting with
    -- nothing. Then after three turns the client has written the whole request with its
    -- acknowledgement, the server its whole answer, and a further turn adds nothing; and having
    -- heard that, the call returns the handler's reply, the server has run the handler on the
    -- message and goes on, and both ends have read everything and keep the connection.
    pub exchange_in_turns :
        (w : World socket)
        → let x = (turned 3).0 in
          let y = (turned 3).1 in
          let c' : ClientTl socket = record c { stream = some (inlet.arrive y stream) } in
          let p' = hears x in
          let called = handle_message socket w command message c' in
          let served = handle_next (server_tl_transport socket) handler p' in
          (turned 3 ≡ (client_writes command message, server_writes reply))
          × (turned 4 ≡ turned 3)
          × (called.0 ≡ ok reply)
          × Kept socket net w.now (inlet.arrive y stream) called.1 [] x
          × (served.0 ≡ ok true)
          × (served.1.command_handler ≡ own')
          × Moved socket net p'.connection served.1.connection [] y
    unfolding hearing
    exchange_in_turns w =
        let more : turned 4 ≡ turned 3 =
          unfold turns in ap take_turn turns_complete ∙ turn_again ∙ sym turns_complete in
        let stream' = inlet.arrive (server_writes reply) stream in
        let talk =
          conversation socket net handler w command message reply own'
            (record c { stream = some stream' }) stream' (hears (client_writes command message))
            r.alive refl r.answers r.command_u32 r.no_ping r.message_u32 r.reply_u32 r.message_fits
            r.reply_fits r.ran
            (inlet.arrive_pending (server_writes reply) stream
              ∙ ap (λ l. l ++ server_writes reply) r.idle)
            (hears_is (client_writes command message)) in
        (
          turns_complete,
          more,
          rw turns_complete talk.0,
          rw turns_complete talk.1,
          rw turns_complete talk.2,
          rw turns_complete talk.3,
          rw turns_complete talk.4,
        )
