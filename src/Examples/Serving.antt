-- ===== src/Examples/Serving.antt =====
-- The loops of examples/transport/simple_server.rs, ping_example.rs, tls_server.rs and
-- ping_tls_example.rs that serve
-- a connection by hand. Printed lines are left out.
use wagonet.Prelude.{
  ℕ, zero, suc, Bool, true, false, ◌&&◌, Option, none, some, List, [], ◌∷◌, ◌++◌, if◌then◌else◌,
  ◌==◌,
}
use wagonet.Errors.{Error, Result, ok, err}
use wagonet.Action.{Action, pure}
use wagonet.Socket.{Socket}
use wagonet.ServerTl
use wagonet.ServerTl.{ServerTl}
use wagonet.ServerTls
use wagonet.ServerTls.{ServerTls}

-- How the service of a connection ends: the loop is left, or the program fails, by `?` or by `unwrap`.
pub data Ending : Type 0 where
  leaves : Ending
  fails : Error → Ending

-- "Echo: "
abbrev pub echo_prefix : List ℕ
echo_prefix = 69 ∷ 99 ∷ 104 ∷ 111 ∷ 58 ∷ 32 ∷ []

-- What the loops differ in: the text in front of an echo, whether the payload of an empty request is not
-- received, and what an error of a read or of a write does.
pub record Style : Type 0 where
  pub prefix : List ℕ
  pub skips_empty : Bool
  pub on_transfer : Error → Ending

-- "TLS Echo: "
abbrev pub tls_echo_prefix : List ℕ
tls_echo_prefix = 84 ∷ 76 ∷ 83 ∷ 32 ∷ echo_prefix

abbrev pub simple_server : Style
simple_server = record { prefix = echo_prefix; skips_empty = false; on_transfer = λ e. leaves }

abbrev pub tls_server : Style
tls_server = record { prefix = tls_echo_prefix; skips_empty = false; on_transfer = λ e. leaves }

abbrev pub ping_example : Style
ping_example = record { prefix = echo_prefix; skips_empty = true; on_transfer = fails }

-- The loops over TCP and over TLS differ in the type of the connection.
module _ (Connection : Type 0) (read_command : Action Connection (Option (ℕ × ℕ)))
    (receive_data : ℕ → Action Connection (List ℕ))
    (send_data : ℕ → Option (List ℕ) → Action Connection (Unit {0})) (lossy : List ℕ → List ℕ)
    (style : Style) where
  abbrev pub Outcome : Type 0
  Outcome = Option Ending × Connection

  -- `format!("Echo: {}", String::from_utf8_lossy(&data))`
  abbrev pub echo_text : List ℕ → List ℕ
  echo_text bytes = style.prefix ++ lossy bytes

  unfoldable pub receive : ℕ → Action Connection (List ℕ)
  receive size s =
      if style.skips_empty && (size == 0) then pure {E = Error} [] s else receive_data size s

  -- The body of the loop behind each of its calls; `next` is the next round.
  abbrev pub after_send : (Connection → Outcome) → Result Error (Unit {0}) → Connection → Outcome
  after_send next (err e) s = (some (style.on_transfer e), s)
  after_send next (ok u) s = next s

  abbrev pub after_receive : (Connection → Outcome) → Result Error (List ℕ) → Connection → Outcome
  after_receive next (err e) s = (some (style.on_transfer e), s)
  after_receive next (ok bytes) s =
      let (sent, s') = send_data 1 (some (echo_text bytes)) s in after_send next sent s'

  unfoldable pub after_command :
      (Connection → Outcome) → Result Error (Option (ℕ × ℕ)) → Connection → Outcome
  unfolding receive
  after_command next (err e) s = (some (fails e), s)
  after_command next (ok none) s = (some leaves, s)
  after_command next (ok (some (command, size))) s =
      let (received, s') = receive size s in after_receive next received s'

  -- `while let Some((cmd, size)) = server.read_command().await`, for so many rounds at most
  unfoldable pub serving_loop : ℕ → Connection → Outcome
  unfolding after_command
  serving_loop zero s = (none, s)
  serving_loop (suc rounds) s =
      let (got, s') = read_command s in after_command (serving_loop rounds) got s'

module _ (socket : Socket) (lossy : List ℕ → List ℕ) (style : Style) where
  abbrev pub tcp_receive : ℕ → Action (ServerTl socket) (List ℕ)
  tcp_receive =
      receive (ServerTl socket) (ServerTl.read_command socket) (ServerTl.receive_data socket)
        (ServerTl.send_data socket) lossy style

  abbrev pub tcp_loop : ℕ → ServerTl socket → Option Ending × ServerTl socket
  tcp_loop =
      serving_loop (ServerTl socket) (ServerTl.read_command socket) (ServerTl.receive_data socket)
        (ServerTl.send_data socket) lossy style

  abbrev pub tls_receive : ℕ → Action (ServerTls socket) (List ℕ)
  tls_receive =
      receive (ServerTls socket) (ServerTls.read_command socket) (ServerTls.receive_data socket)
        (ServerTls.send_data socket) lossy style

  abbrev pub tls_loop : ℕ → ServerTls socket → Option Ending × ServerTls socket
  tls_loop =
      serving_loop (ServerTls socket) (ServerTls.read_command socket)
        (ServerTls.receive_data socket) (ServerTls.send_data socket) lossy style
