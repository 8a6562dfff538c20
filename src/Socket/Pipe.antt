-- ===== src/Socket/Pipe.antt =====
-- A concrete stream: what the peer sends is given in advance, and each read delivers at most
-- `step + 1` bytes of it.
use wagonet.Prelude.{
  ℕ, suc, ◌≤◌, ◌<◌, ◌≡◌, ◌≢◌, refl, Bool, true, false, List, [], ◌∷◌, ◌++◌, length, take, drop, leb,
  if◌then◌else◌, arith, take-append-drop, take-append, drop-append, length-take, length-append,
}
use Prim.Native.Nat.{min}
use wagonet.Errors.{ok, err, IoError, unexpected_eof, Result, Timed, in_time, elapsed}
use wagonet.Socket.{Socket}
use wagonet.Socket.Delivery.{Network, Inlet}

pub record Pipe : Type 0 where
  pub incoming : List ℕ
  pub outgoing : List ℕ
  pub closes : Bool
  pub step : ℕ

abbrev at_end {ℓ} : {A : Type ℓ} → Bool → A → Timed A
at_end true a = in_time a
at_end false a = elapsed

pub pipe_chunk : ℕ → Pipe → List ℕ
pipe_chunk room p = take (min room (suc p.step)) p.incoming

pub pipe_read : ℕ → ℕ → Pipe → Timed (Result IoError (List ℕ)) × Pipe
unfolding pipe_chunk
pipe_read d room p = elim p.incoming [
  | [] ↦ (at_end p.closes (ok []), p)
  | b ∷ bs ↦ (
    in_time (ok (pipe_chunk room p)),
    record p { incoming = drop (min room (suc p.step)) p.incoming },
  )
]

pub pipe_read_exact : ℕ → List ℕ → Pipe → Timed (Result IoError (Unit {0})) × List ℕ × Pipe
pipe_read_exact d buf p =
    if leb (length buf) (length p.incoming)
    then (
      in_time (ok tt),
      take (length buf) p.incoming,
      record p { incoming = drop (length buf) p.incoming },
    )
    else (at_end p.closes (err unexpected_eof), buf, record p { incoming = [] })

pipe_write_all : ℕ → List ℕ → Pipe → Timed (Result IoError (Unit {0})) × Pipe
pipe_write_all d bytes p = (in_time (ok tt), record p { outgoing = p.outgoing ++ bytes })

unfoldable pub pipe_socket : Socket
unfolding pipe_read pipe_read_exact pipe_write_all
pipe_socket = record {
  State = Pipe;
  read = pipe_read;
  read_exact = pipe_read_exact;
  write_all = pipe_write_all;
  write_all_wait = λ bytes p. (ok tt, record p { outgoing = p.outgoing ++ bytes });
  flush = λ p. (ok tt, p);
  shutdown = λ p. (ok tt, p);
}

pub pipe_read_some :
    (d room : ℕ) (p : Pipe)
    → 0 < room
    → p.incoming ≢ []
    → ((pipe_read d room p).0 ≡ in_time (ok (pipe_chunk room p)))
      × (0 < length (pipe_chunk room p))
      × (length (pipe_chunk room p) ≤ room)
      × (p.incoming ≡ pipe_chunk room p ++ (pipe_read d room p).1.incoming)
      × ((pipe_read d room p).1.outgoing ≡ p.outgoing)
      × ((pipe_read d room p).1.closes ≡ p.closes)
unfolding pipe_read
pipe_read_some d room p h some = ground (
  arith,
  length-take (min room (suc p.step)) p.incoming,
  take-append-drop (min room (suc p.step)) p.incoming,
)

pub pipe_read_exact_all :
    (d : ℕ) (buf : List ℕ) (p : Pipe) (bytes rest : List ℕ)
    → p.incoming ≡ bytes ++ rest
    → length bytes ≡ length buf
    → ((pipe_read_exact d buf p).0 ≡ in_time (ok tt))
      × ((pipe_read_exact d buf p).1 ≡ bytes)
      × ((pipe_read_exact d buf p).2.incoming ≡ rest)
      × ((pipe_read_exact d buf p).2.outgoing ≡ p.outgoing)
      × ((pipe_read_exact d buf p).2.closes ≡ p.closes)
unfolding pipe_read_exact
pipe_read_exact_all d buf p bytes rest e n =
    ground (arith, take-append bytes rest, drop-append bytes rest, length-append bytes rest)

pub pipe_read_none :
    (d room : ℕ) (p : Pipe)
    → p.incoming ≡ []
    → (p.closes ≡ true → (pipe_read d room p).0 ≡ in_time (ok []))
      × (p.closes ≡ false → (pipe_read d room p).0 ≡ elapsed)
unfolding pipe_read
pipe_read_none d room p none = (λ shut. ground arith, λ silent. ground arith)

pub pipe_read_exact_short :
    (d : ℕ) (buf : List ℕ) (p : Pipe)
    → length p.incoming < length buf
    → (p.closes ≡ true → (pipe_read_exact d buf p).0 ≡ in_time (err unexpected_eof))
      × (p.closes ≡ false → (pipe_read_exact d buf p).0 ≡ elapsed)
unfolding pipe_read_exact
pipe_read_exact_short d buf p short = (λ shut. ground arith, λ silent. ground arith)

pub pipe_read_exact_idle :
    (d : ℕ) (buf : List ℕ) (p : Pipe)
    → 0 < length buf
    → p.incoming ≡ []
    → ((pipe_read_exact d buf p).2.incoming ≡ [])
      × ((pipe_read_exact d buf p).2.outgoing ≡ p.outgoing)
      × ((pipe_read_exact d buf p).2.closes ≡ p.closes)
unfolding pipe_read_exact
pipe_read_exact_idle d buf p room none = ground arith

pub pipe_read_sent : (d room : ℕ) (p : Pipe) → (pipe_read d room p).1.outgoing ≡ p.outgoing
unfolding pipe_read
pipe_read_sent d room p = ground arith

pub pipe_read_exact_sent :
    (d : ℕ) (buf : List ℕ) (p : Pipe) → (pipe_read_exact d buf p).2.outgoing ≡ p.outgoing
unfolding pipe_read_exact
pipe_read_exact_sent d buf p = ground arith

unfoldable pub pipe_network : Network pipe_socket
unfolding pipe_socket
pipe_network = record {
  pending = λ p. p.incoming;
  sent = λ p. p.outgoing;
  is_closed = λ p. p.closes;
  chunk = λ d room p. pipe_chunk room p;
  read_some = λ d room p h some. pipe_read_some d room p h some;
  read_end = λ d room p none shut. (pipe_read_none d room p none).0 shut;
  read_silent = λ d room p none silent. (pipe_read_none d room p none).1 silent;
  read_exact_all = λ d buf p bytes rest e n. pipe_read_exact_all d buf p bytes rest e n;
  read_exact_end = λ d buf p short shut. (pipe_read_exact_short d buf p short).0 shut;
  read_exact_silent = λ d buf p short silent. (pipe_read_exact_short d buf p short).1 silent;
  read_exact_idle = λ d buf p room none silent. pipe_read_exact_idle d buf p room none;
  read_sent = λ d room p. pipe_read_sent d room p;
  read_exact_sent = λ d buf p. pipe_read_exact_sent d buf p;
  write_all_ok = λ d bytes p. (refl, refl, refl, refl);
  write_all_wait_ok = λ bytes p. (refl, refl, refl, refl);
  flush_ok = λ p. (refl, refl, refl, refl);
}

unfoldable pub pipe_inlet : Inlet pipe_socket pipe_network
unfolding pipe_socket pipe_network
pipe_inlet = record {
  arrive = λ bytes p. record p { incoming = p.incoming ++ bytes };
  arrive_pending = λ bytes p. refl;
  arrive_sent = λ bytes p. refl;
  arrive_open = λ bytes p. refl;
}
