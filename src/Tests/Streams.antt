-- ===== src/Tests/Streams.antt =====
-- Runs of the frame reader on a stream that delivers its bytes in small pieces.
use wagonet.Prelude.{◌≢◌, ℕ, ◌≡◌, refl, List, [], ◌∷◌, arith, true, false, Bool, length}
use wagonet.Errors.{ok, err, in_time, elapsed, connection_closed, connection_closed_mid_frame}
use wagonet.Socket.Reading.{read_exact_or_closed, read_loop}
use wagonet.Socket.Delivery.Frames.{Took, read_exact_or_closed_all, read_exact_or_closed_short}
use wagonet.Socket.Delivery.Fuel.{read_loop_fuel}
use wagonet.Socket.Pipe.{pipe_socket, pipe_network}

-- A peer that has sent `bytes`, in pieces of two, and closes or falls silent behind them.
unfoldable pub sending : List ℕ → Bool → pipe_socket.State
unfolding pipe_socket
sending bytes closes = record { incoming = bytes; outgoing = []; closes = closes; step = 1 }

abbrev zeros : List ℕ
zeros = 0 ∷ 0 ∷ 0 ∷ []

read_exact_or_closed_all_example :
    let s = sending (1 ∷ 2 ∷ 3 ∷ 4 ∷ []) false in
    ((read_exact_or_closed pipe_socket 5 zeros s).0 ≡ in_time (ok tt))
    × ((read_exact_or_closed pipe_socket 5 zeros s).1 ≡ 1 ∷ 2 ∷ 3 ∷ [])
    × Took pipe_socket pipe_network s (read_exact_or_closed pipe_socket 5 zeros s).2 (4 ∷ [])
unfolding pipe_socket pipe_network sending
read_exact_or_closed_all_example =
    read_exact_or_closed_all pipe_socket pipe_network 5 zeros (sending (1 ∷ 2 ∷ 3 ∷ 4 ∷ []) false)
      (1 ∷ 2 ∷ 3 ∷ []) (4 ∷ []) refl refl

read_exact_or_closed_short_example :
    let s = sending (1 ∷ 2 ∷ []) true in
    let r = (read_exact_or_closed pipe_socket 5 zeros s).0 in
    (pipe_network.is_closed s ≡ false → r ≡ elapsed)
    × (pipe_network.is_closed s ≡ true
        → pipe_network.pending s ≡ []
        → r ≡ in_time (err connection_closed))
    × (pipe_network.is_closed s ≡ true
        → pipe_network.pending s ≢ []
        → r ≡ in_time (err (connection_closed_mid_frame (length (pipe_network.pending s)) 3)))
unfolding pipe_socket pipe_network sending
read_exact_or_closed_short_example =
    read_exact_or_closed_short pipe_socket pipe_network 5 zeros (sending (1 ∷ 2 ∷ []) true)
      (omega arith)

read_loop_fuel_example :
    let s = sending (1 ∷ 2 ∷ 3 ∷ 4 ∷ []) false in
    read_loop pipe_socket 3 5 0 zeros s ≡ read_loop pipe_socket 9 5 0 zeros s
read_loop_fuel_example =
    read_loop_fuel pipe_socket 3 9 5 0 zeros (sending (1 ∷ 2 ∷ 3 ∷ 4 ∷ []) false) (omega arith)
      (omega arith)
