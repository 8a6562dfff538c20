-- ===== src/Conversation/Caller.antt =====
-- A user of a client that makes one call after the other, whichever client it is: the interface of a
-- client, what the server and its handler promise, and what the calls then return.
use wagonet.Prelude.{
  ℕ, suc, ◌≤◌, ◌≡◌, refl, sym, List, [], ◌∷◌, ◌++◌, append-nil, append_assoc, arith, length,
}
use wagonet.Errors.{ok}
use wagonet.Action.{Action, pure, ◌>>=◌}
use wagonet.Headers.Bytes.{IsU32, as_u32}
use wagonet.Headers.Status.{ok_status}
use wagonet.Protocol.{CommandHandler, is_finish}
use wagonet.Connection.Sessions.{Request, request_bytes, IsAccepted, Answers, nothing, answer}
use wagonet.Conversation.{client_writes, server_writes}

-- What the server sends for a list of replies of status 1.
unfoldable pub reply_bytes : List (List ℕ) → List ℕ
reply_bytes [] = []
reply_bytes (r ∷ rs) = server_writes r ++ reply_bytes rs

module _ (handler : CommandHandler) (limit room : ℕ) where
  -- What the handler promises of a list of requests: from one state to another, it replies to each
  -- with status 1 and a payload for which the client has room.
  pub data Replies : handler.Own → List Request → handler.Own → List (List ℕ) → Type 0 where
    silent : {own : handler.Own} → Replies own [] own []
    replying :
        {own own' own'' : handler.Own} (q : Request) {qs : List Request} (r : List ℕ)
        {rs : List (List ℕ)}
        → IsAccepted limit q
        → IsU32 (length r)
        → length r ≤ room
        → handler.run q.command q.payload own ≡ (ok (ok_status, r), own')
        → Replies own' qs own'' rs
        → Replies own (q ∷ qs) own'' (r ∷ rs)

  pub Replies-Answers :
      {own own' : handler.Own} {qs : List Request} {rs : List (List ℕ)}
      → Replies own qs own' rs
      → Answers handler limit own qs own' (reply_bytes rs)
  unfolding reply_bytes server_writes
  Replies-Answers silent = nothing
  Replies-Answers (replying q r good small fits ran more) =
      answer q ok_status r good (unfold is_finish in refl) ran (Replies-Answers more)

-- What a client is to its user: the calls, by number, and what its connection holds, the bytes that are
-- still to be read and those that were sent. A call with a reply of status 1 in front of it
-- returns the reply, reads no more than it, and sends the request and the acknowledgement.
pub record Caller : Type 1 where
  pub Client : Type 0
  pub room : ℕ
  pub call : ℕ → Request → Action Client (List ℕ)
  pub Holds : Client → (rest sent : List ℕ) → Type 0
  pub replies :
      (k : ℕ) (q : Request) (r rest sent : List ℕ) (c : Client)
      → IsU32 (length q.payload)
      → IsU32 (length r)
      → length r ≤ room
      → Holds c (server_writes r ++ rest) sent
      → ((call k q c).0 ≡ ok r)
        × Holds (call k q c).1 rest (sent ++ client_writes q.command q.payload)

module _ (caller : Caller) where
  -- The calls one after the other, up to one that fails.
  unfoldable pub calls : ℕ → List Request → Action caller.Client (List (List ℕ))
  calls k [] = pure []
  calls k (q ∷ qs) = do reply ← caller.call k q; replies ← calls (suc k) qs; pure (reply ∷ replies)

  then_requests :
      (q : Request) (qs : List Request) (sent : List ℕ)
      → IsU32 (length q.payload)
      → (sent ++ client_writes q.command q.payload) ++ request_bytes qs
        ≡ sent ++ request_bytes (q ∷ qs)
  unfolding request_bytes client_writes
  then_requests q qs sent small =
      let whole : as_u32 (length q.payload) ≡ length q.payload = omega arith in
      rw (whole, append_assoc, append_assoc, append_assoc) refl

  then_replies :
      (r : List ℕ) (rs : List (List ℕ)) (rest : List ℕ)
      → reply_bytes (r ∷ rs) ++ rest ≡ server_writes r ++ (reply_bytes rs ++ rest)
  unfolding reply_bytes
  then_replies r rs rest = append_assoc (server_writes r) (reply_bytes rs) rest

  pub calls_lem :
      (handler : CommandHandler) (limit : ℕ) (k : ℕ) (own own' : handler.Own) (qs : List Request)
      (rs : List (List ℕ)) (rest sent : List ℕ) (c : caller.Client)
      → Replies handler limit caller.room own qs own' rs
      → caller.Holds c (reply_bytes rs ++ rest) sent
      → ((calls k qs c).0 ≡ ok rs) × caller.Holds (calls k qs c).1 rest (sent ++ request_bytes qs)
  unfolding calls
  calls_lem handler limit k own own' [] [] rest sent c silent h =
      unfold reply_bytes request_bytes in (refl, rw (append-nil sent) h)
  calls_lem handler limit k own own' [] (r ∷ rs) rest sent c promised h = elim promised [ ]
  calls_lem handler limit k own own' (q ∷ qs) [] rest sent c promised h = elim promised [ ]
  calls_lem handler limit k own own' (q ∷ qs) (r ∷ rs) rest sent c
        (replying {own' = own1} _ _ good small fits ran more) h =
      let (done, held) =
        caller.replies k q r (reply_bytes rs ++ rest) sent c good.size_u32 small fits
          (rw (sym (then_replies r rs rest)) h) in
      let (all, ends) =
        calls_lem handler limit (suc k) own1 own' qs rs rest
          (sent ++ client_writes q.command q.payload) (caller.call k q c).1 more held in
      rw (done, all, sym (then_requests q qs sent good.size_u32)) (refl, ends)
