-- ===== src/Examples/ServingTls.antt =====
-- The loops of examples/transport/tls_server.rs and ping_tls_example.rs beside those over TCP.
use wagonet.Prelude.{
  ℕ, zero, suc, ◌≡◌, refl, ap, ◌∙◌, ◌&&◌, Option, none, some, List, [], ◌==◌, ◌++◌,
}
use wagonet.Errors.{Error, Result, ok, err}
use wagonet.Action.Mirroring.{Mirrors-eq, if-Mirrors, pure-Mirrors}
use wagonet.Socket.{Socket}
use wagonet.ServerTl
use wagonet.ServerTl.{ServerTl}
use wagonet.ServerTls
use wagonet.ServerTls.{ServerTls}
use wagonet.ServerTls.Mirrors.{as_tl, Same, read_command-Same, receive_data-Same, send_data-Same}
use wagonet.Examples.Serving.{
  Ending, Style, receive, after_send, after_receive, after_command, serving_loop, tcp_receive,
  tls_receive, tcp_loop, tls_loop,
}

module _ (socket : Socket) (lossy : List ℕ → List ℕ) (style : Style) where
  abbrev seen : Option Ending × ServerTls socket → Option Ending × ServerTl socket
  seen (o, s) = (o, as_tl socket s)

  receive-Same :
      (size : ℕ)
      → Same socket (tls_receive socket lossy style size) (tcp_receive socket lossy style size)
  unfolding receive
  receive-Same size =
      if-Mirrors (λ s. style.skips_empty && (size == 0)) (λ s. style.skips_empty && (size == 0))
        (λ s. refl) (pure-Mirrors []) (receive_data-Same socket size)

  -- The parts of the body of either loop.
  module _ (next : ServerTl socket → Option Ending × ServerTl socket)
      (next' : ServerTls socket → Option Ending × ServerTls socket)
      (same : (s : ServerTls socket) → next (as_tl socket s) ≡ seen (next' s)) where
    abbrev sent_tcp : Result Error (Unit {0}) → ServerTl socket → Option Ending × ServerTl socket
    sent_tcp =
        after_send (ServerTl socket) (ServerTl.read_command socket) (ServerTl.receive_data socket)
          (ServerTl.send_data socket) lossy style next

    abbrev sent_tls : Result Error (Unit {0}) → ServerTls socket → Option Ending × ServerTls socket
    sent_tls =
        after_send (ServerTls socket) (ServerTls.read_command socket)
          (ServerTls.receive_data socket) (ServerTls.send_data socket) lossy style next'

    abbrev received_tcp : Result Error (List ℕ) → ServerTl socket → Option Ending × ServerTl socket
    received_tcp =
        after_receive (ServerTl socket) (ServerTl.read_command socket)
          (ServerTl.receive_data socket) (ServerTl.send_data socket) lossy style next

    abbrev received_tls :
        Result Error (List ℕ) → ServerTls socket → Option Ending × ServerTls socket
    received_tls =
        after_receive (ServerTls socket) (ServerTls.read_command socket)
          (ServerTls.receive_data socket) (ServerTls.send_data socket) lossy style next'

    abbrev commanded_tcp :
        Result Error (Option (ℕ × ℕ)) → ServerTl socket → Option Ending × ServerTl socket
    commanded_tcp =
        after_command (ServerTl socket) (ServerTl.read_command socket)
          (ServerTl.receive_data socket) (ServerTl.send_data socket) lossy style next

    abbrev commanded_tls :
        Result Error (Option (ℕ × ℕ)) → ServerTls socket → Option Ending × ServerTls socket
    commanded_tls =
        after_command (ServerTls socket) (ServerTls.read_command socket)
          (ServerTls.receive_data socket) (ServerTls.send_data socket) lossy style next'

    sent-over :
        (r : Result Error (Unit {0})) (s : ServerTls socket)
        → sent_tcp r (as_tl socket s) ≡ seen (sent_tls r s)
    sent-over (err e) s = refl
    sent-over (ok u) s = same s

    received-over :
        (r : Result Error (List ℕ)) (s : ServerTls socket)
        → received_tcp r (as_tl socket s) ≡ seen (received_tls r s)
    received-over (err e) s = refl
    received-over (ok bytes) s =
        let reply = some (style.prefix ++ lossy bytes) in
        let did = ServerTls.send_data socket 1 reply s in
        ap (λ r. sent_tcp r.0 r.1) (Mirrors-eq (send_data-Same socket 1 reply) s)
        ∙ sent-over did.0 did.1

    commanded-over :
        (r : Result Error (Option (ℕ × ℕ))) (s : ServerTls socket)
        → commanded_tcp r (as_tl socket s) ≡ seen (commanded_tls r s)
    unfolding after_command
    commanded-over (err e) s = refl
    commanded-over (ok none) s = refl
    commanded-over (ok (some (command, size))) s =
        let did = tls_receive socket lossy style size s in
        ap (λ r. received_tcp r.0 r.1) (Mirrors-eq (receive-Same size) s)
        ∙ received-over did.0 did.1

  -- Over a TLS stream the loop does just what it does over a TCP stream: it ends in the same way, or
  -- takes all its rounds, and leaves the same connection.
  pub tls_loop-over_tl :
      (rounds : ℕ) (s : ServerTls socket)
      → tcp_loop socket lossy style rounds (as_tl socket s) ≡ (
        (tls_loop socket lossy style rounds s).0,
        as_tl socket (tls_loop socket lossy style rounds s).1,
      )
  unfolding serving_loop
  tls_loop-over_tl zero s = refl
  tls_loop-over_tl (suc rounds) s =
      let did = ServerTls.read_command socket s in
      let next = tcp_loop socket lossy style rounds in
      let next' = tls_loop socket lossy style rounds in
      let same = tls_loop-over_tl rounds in
      ap {A = Result Error (Option (ℕ × ℕ)) × ServerTl socket}
        (λ r. commanded_tcp next next' same r.0 r.1) (Mirrors-eq (read_command-Same socket) s)
      ∙ commanded-over next next' same did.0 did.1
