-- ===== src/Socket/Delivery.antt =====
-- A network that loses nothing, as a hypothesis on the socket: what the documentation of tokio's
-- `read`, `read_exact`, `write_all` and `flush` says of a stream on which no error occurs, whose
-- peer has sent or will send in time the bytes `pending`, and then closes or falls silent.
mod Splitting
mod Rounds
pub mod Stalls
pub mod Fuel
pub mod Frames
use wagonet.Prelude.{ℕ, ◌≤◌, ◌<◌, ◌≡◌, ◌≢◌, Bool, true, false, List, [], ◌++◌, length}
use wagonet.Errors.{ok, err, unexpected_eof, in_time, elapsed}
use wagonet.Socket.{Socket}

pub record Network (socket : Socket) : Type 0 where
  -- bytes from the peer that have not been read, and bytes written to it
  pub pending : socket.State → List ℕ
  pub sent : socket.State → List ℕ
  -- whether the peer closes behind the pending bytes
  pub is_closed : socket.State → Bool
  -- how much a `read` delivers at once is up to the network
  pub chunk : (deadline room : ℕ) → socket.State → List ℕ
  pub read_some :
      (d room : ℕ) (s : socket.State)
      → 0 < room
      → pending s ≢ []
      → ((socket.read d room s).0 ≡ in_time (ok (chunk d room s)))
        × (0 < length (chunk d room s))
        × (length (chunk d room s) ≤ room)
        × (pending s ≡ chunk d room s ++ pending (socket.read d room s).1)
        × (sent (socket.read d room s).1 ≡ sent s)
        × (is_closed (socket.read d room s).1 ≡ is_closed s)
  pub read_end :
      (d room : ℕ) (s : socket.State)
      → pending s ≡ []
      → is_closed s ≡ true
      → (socket.read d room s).0 ≡ in_time (ok [])
  pub read_silent :
      (d room : ℕ) (s : socket.State)
      → pending s ≡ []
      → is_closed s ≡ false
      → (socket.read d room s).0 ≡ elapsed
  pub read_exact_all :
      (d : ℕ) (buf : List ℕ) (s : socket.State) (bytes rest : List ℕ)
      → pending s ≡ bytes ++ rest
      → length bytes ≡ length buf
      → ((socket.read_exact d buf s).0 ≡ in_time (ok tt))
        × ((socket.read_exact d buf s).1 ≡ bytes)
        × (pending (socket.read_exact d buf s).2 ≡ rest)
        × (sent (socket.read_exact d buf s).2 ≡ sent s)
        × (is_closed (socket.read_exact d buf s).2 ≡ is_closed s)
  pub read_exact_end :
      (d : ℕ) (buf : List ℕ) (s : socket.State)
      → length (pending s) < length buf
      → is_closed s ≡ true
      → (socket.read_exact d buf s).0 ≡ in_time (err unexpected_eof)
  pub read_exact_silent :
      (d : ℕ) (buf : List ℕ) (s : socket.State)
      → length (pending s) < length buf
      → is_closed s ≡ false
      → (socket.read_exact d buf s).0 ≡ elapsed
  -- a `read_exact` that is dropped before any byte came has taken none
  pub read_exact_idle :
      (d : ℕ) (buf : List ℕ) (s : socket.State)
      → 0 < length buf
      → pending s ≡ []
      → is_closed s ≡ false
      → (pending (socket.read_exact d buf s).2 ≡ [])
        × (sent (socket.read_exact d buf s).2 ≡ sent s)
        × (is_closed (socket.read_exact d buf s).2 ≡ is_closed s)
  -- reads write nothing, however they end
  pub read_sent : (d room : ℕ) (s : socket.State) → sent (socket.read d room s).1 ≡ sent s
  pub read_exact_sent :
      (d : ℕ) (buf : List ℕ) (s : socket.State) → sent (socket.read_exact d buf s).2 ≡ sent s
  pub write_all_ok :
      (d : ℕ) (bytes : List ℕ) (s : socket.State)
      → ((socket.write_all d bytes s).0 ≡ in_time (ok tt))
        × (pending (socket.write_all d bytes s).1 ≡ pending s)
        × (sent (socket.write_all d bytes s).1 ≡ sent s ++ bytes)
        × (is_closed (socket.write_all d bytes s).1 ≡ is_closed s)
  pub write_all_wait_ok :
      (bytes : List ℕ) (s : socket.State)
      → ((socket.write_all_wait bytes s).0 ≡ ok tt)
        × (pending (socket.write_all_wait bytes s).1 ≡ pending s)
        × (sent (socket.write_all_wait bytes s).1 ≡ sent s ++ bytes)
        × (is_closed (socket.write_all_wait bytes s).1 ≡ is_closed s)
  pub flush_ok :
      (s : socket.State)
      → ((socket.flush s).0 ≡ ok tt)
        × (pending (socket.flush s).1 ≡ pending s)
        × (sent (socket.flush s).1 ≡ sent s)
        × (is_closed (socket.flush s).1 ≡ is_closed s)

-- How bytes from the peer come in on such a stream: behind those that are still to be read.
pub record Inlet (socket : Socket) (net : Network socket) : Type 0 where
  pub arrive : List ℕ → socket.State → socket.State
  pub arrive_pending :
      (bytes : List ℕ) (s : socket.State) → net.pending (arrive bytes s) ≡ net.pending s ++ bytes
  pub arrive_sent : (bytes : List ℕ) (s : socket.State) → net.sent (arrive bytes s) ≡ net.sent s
  pub arrive_open :
      (bytes : List ℕ) (s : socket.State) → net.is_closed (arrive bytes s) ≡ net.is_closed s
