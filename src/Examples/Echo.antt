-- ===== src/Examples/Echo.antt =====
-- examples/framework/high_level_server.rs: `EchoHandler`, and the connections of its server, which
-- share one counter.
use wagonet.Prelude.{ℕ, zero, suc, ◌+◌, ◌%◌, ◌≡◌, refl, List, [], ◌∷◌, ◌==◌, if◌then◌else◌, arith}
use wagonet.Errors.{Error, Result, ok, err, msg, unknown_command}
use wagonet.Action.{Action}
use wagonet.Headers.Status.{ResponseStatus, ok_status, finish}
use wagonet.Protocol.{CommandHandler}

abbrev pub cmd_echo : ℕ
cmd_echo = 1

abbrev pub cmd_uppercase : ℕ
cmd_uppercase = 2

abbrev pub cmd_finish : ℕ
cmd_finish = 3

abbrev pub cmd_stats : ℕ
cmd_stats = 4

-- "Goodbye!"
abbrev pub goodbye : List ℕ
goodbye = 71 ∷ 111 ∷ 111 ∷ 100 ∷ 98 ∷ 121 ∷ 101 ∷ 33 ∷ []

-- `+= 1` and `fetch_add(1)` on a `u64`
abbrev pub increment : ℕ → ℕ
increment n = (n + 1) % 18446744073709551616

-- `total_requests` is the counter that the connections share, as this connection finds it.
pub record EchoHandler : Type 0 where
  pub requests : ℕ
  pub total_requests : ℕ

-- All connections of a server: the counter of each handler, and the one that they share.
pub record Connections : Type 0 where
  pub counters : List ℕ
  pub total : ℕ

-- `main`: no connection has been accepted.
abbrev pub none_yet : Connections
none_yet = record { counters = []; total = 0 }

-- The factory that `set_protocol_command_handler_factory` is given.
unfoldable pub open_connection : Connections → Connections
open_connection k = record k { counters = 0 ∷ k.counters }

unfoldable pub sum : List ℕ → ℕ
sum [] = 0
sum (c ∷ counters) = c + sum counters

-- `uppercase` is what `String::from_utf8_lossy(..).to_uppercase()` makes of the bytes, and `stats` is the
-- text of the two counters.
module _ (uppercase : List ℕ → List ℕ) (stats : ℕ → ℕ → List ℕ) where
  unfoldable pub answer : ℕ → List ℕ → EchoHandler → Result Error (ResponseStatus × List ℕ)
  answer command bytes h =
      if command == cmd_echo
      then ok (ok_status, bytes)
      else if command == cmd_uppercase
      then ok (ok_status, uppercase bytes)
      else if command == cmd_finish
      then ok (finish, goodbye)
      else if command == cmd_stats
      then ok (ok_status, stats h.requests h.total_requests)
      else err (msg (unknown_command command))

  unfoldable pub run : ℕ → List ℕ → Action EchoHandler (ResponseStatus × List ℕ)
  run command bytes h =
      let h' : EchoHandler = record {
        requests = increment h.requests;
        total_requests = increment h.total_requests;
      } in
      (answer command bytes h', h')

  abbrev pub echo_handler : CommandHandler
  echo_handler = record { Own = EchoHandler; run = run }

  -- A request on a connection, by its place among the connections, the newest first.
  unfoldable pub request_at : ℕ → ℕ → List ℕ → List ℕ → ℕ → List ℕ × ℕ
  request_at i command bytes [] total = ([], total)
  request_at zero command bytes (c ∷ counters) total =
      let h = (run command bytes (record { requests = c; total_requests = total })).1 in
      (h.requests ∷ counters, h.total_requests)
  request_at (suc i) command bytes (c ∷ counters) total =
      let (rest, total') = request_at i command bytes counters total in (c ∷ rest, total')

  unfoldable pub request : ℕ → ℕ → List ℕ → Connections → Connections
  request i command bytes k =
      let (counters, total) = request_at i command bytes k.counters k.total in
      record { counters = counters; total = total }

  -- The connections open and send requests in any order.
  pub data Served : Connections → Type 0 where
    idle : Served none_yet
    opened : {k : Connections} → Served k → Served (open_connection k)
    requested :
        {k : Connections}
        → Served k
        → (i command : ℕ) (bytes : List ℕ) → Served (request i command bytes k)

  total_at :
      (i command : ℕ) (bytes counters : List ℕ) (total : ℕ) (before : ℕ)
      → total ≡ (before + sum counters) % 18446744073709551616
      → (request_at i command bytes counters total).1
        ≡ (before + sum (request_at i command bytes counters total).0) % 18446744073709551616
  unfolding request_at run sum
  total_at i command bytes [] total before e = e
  total_at zero command bytes (c ∷ counters) total before e = omega (arith, e)
  total_at (suc i) command bytes (c ∷ counters) total before e =
      let later = total_at i command bytes counters total (before + c) (omega (arith, e)) in
      omega (arith, later)

  -- However the connections of the server open and send requests, whatever the commands and payloads:
  -- the counter that they share is the sum of the counters of the connections, as a 64-bit number.
  pub Served-total : {k : Connections} → Served k → k.total ≡ sum k.counters % 18446744073709551616
  unfolding sum open_connection request
  Served-total idle = refl
  Served-total (opened {k} served) = omega (arith, Served-total served)
  Served-total (requested {k} served i command bytes) =
      let counted =
        total_at i command bytes k.counters k.total 0 (omega (arith, Served-total served)) in
      omega (arith, counted)
