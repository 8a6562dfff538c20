-- ===== src/Connection.antt =====
-- src/connection_handler.rs: the loop that serves one accepted connection. Log lines are left out.
pub mod Sessions
pub mod Handler
pub mod Transports
use wagonet.Prelude.{ℕ, Bool, true, false, Option, none, some, List, [], ◌∷◌}
use wagonet.Errors.{Error, Result, ok, err, is_disconnect}
use wagonet.Protocol.{Transport, CommandHandler, ProtocolHandler, handle_next}

-- Why the loop of `run` is left. Both an error and a disconnect end the task with `Ok(())`.
pub data Ending : Type 0 where
  finished shut_down disconnected : Ending
  failed : Error → Ending

unfoldable pub ending_of : Error → Bool → Ending
ending_of e true = disconnected
ending_of e false = failed e

module _ (transport : Transport) (handler : CommandHandler) where
  -- Which branch of the `select!` a round takes: `handle_next` completes, or the shutdown signal
  -- changes first, and the call that is dropped leaves the connection in some state.
  pub data Event : Type 0 where
    completes : Event
    changed : (signal : Bool) → ProtocolHandler transport handler → Event

  -- The loop, on the events that happen: why it ended, if it did, and what it left.
  unfoldable pub run_loop :
      List Event
      → ProtocolHandler transport handler
      → Option Ending × ProtocolHandler transport handler
  unfolding ending_of is_disconnect
  run_loop [] p = (none, p)
  run_loop (completes ∷ events) p = elim (handle_next transport handler p).0 [
    | ok true ↦ run_loop events (handle_next transport handler p).1
    | ok false ↦ (some finished, (handle_next transport handler p).1)
    | err e ↦ (some (ending_of e (is_disconnect e)), (handle_next transport handler p).1)
  ]
  run_loop (changed true left ∷ events) p = (some shut_down, left)
  run_loop (changed false left ∷ events) p = run_loop events left
