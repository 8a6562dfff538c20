-- ===== src/Server.antt =====
-- src/server.rs: the settings, the accept loop, the limit on connections, and the drain at the end.
-- Binding the listener and log lines are left out; the task of a connection is in Server.Secure.
pub mod Accepting
pub mod Draining
pub mod Secure
use wagonet.Prelude.{
  ℕ, suc, ◌+◌, ◌-◌, ◌≤◌, String, Bool, true, false, Option, none, some, List, [], ◌∷◌, ◌++◌, ltb,
  leb, ◌==◌, if◌then◌else◌, length,
}
use wagonet.Errors.{IoError, Result, ok, err}
use wagonet.Timeouts.{from_secs}

abbrev pub default_drain_timeout : ℕ
default_drain_timeout = from_secs 5

-- What the server takes from outside: native-tls, whose errors are opaque, and the factories of
-- command handlers.
pub record Outside : Type 1 where
  pub Identity : Type 0
  pub Acceptor : Type 0
  pub Factory : Type 0
  pub from_pkcs12 : (identity : List ℕ) (password : String) → Result ℕ Identity
  pub build : Identity → Result ℕ Acceptor

module _ (outside : Outside) where
  -- `shutdown_signal` is the value that the watch channel holds. The listener is not kept: `run` gets
  -- what binding it gives.
  pub record Server : Type 0 where
    pub address : String
    pub is_tls : Bool
    pub tls_acceptor : Option outside.Acceptor
    pub max_buffer_size : ℕ
    pub protocol_command_handler_factory : Option outside.Factory
    pub shutdown_signal : Bool
    pub drain_timeout : ℕ
    pub max_connections : ℕ

  unfoldable pub new : String → ℕ → Server
  new address max_buffer_size = record {
    address = address;
    is_tls = false;
    tls_acceptor = none;
    max_buffer_size = max_buffer_size;
    protocol_command_handler_factory = none;
    shutdown_signal = false;
    drain_timeout = default_drain_timeout;
    max_connections = 1024;
  }

  unfoldable pub adopt_acceptor : Result ℕ outside.Acceptor → Server → Result ℕ (Unit {0}) × Server
  adopt_acceptor (ok acceptor) v = (ok tt, record v { is_tls = true; tls_acceptor = some acceptor })
  adopt_acceptor (err e) v = (err e, v)

  unfoldable pub adopt_identity : Result ℕ outside.Identity → Server → Result ℕ (Unit {0}) × Server
  unfolding adopt_acceptor
  adopt_identity (ok identity) v = adopt_acceptor (outside.build identity) v
  adopt_identity (err e) v = (err e, v)

  unfoldable pub set_secure : List ℕ → String → Server → Result ℕ (Unit {0}) × Server
  unfolding adopt_identity
  set_secure identity password v = adopt_identity (outside.from_pkcs12 identity password) v

  unfoldable pub set_protocol_command_handler_factory : outside.Factory → Server → Server
  set_protocol_command_handler_factory factory v = record v {
    protocol_command_handler_factory = some factory;
  }

  unfoldable pub set_max_connections : ℕ → Server → Server
  set_max_connections max_connections v = record v { max_connections = max_connections }

  unfoldable pub set_drain_timeout : ℕ → Server → Server
  set_drain_timeout duration v = record v { drain_timeout = duration }

  -- The handle is a sender: what is sent through it is the value that the channel then holds.
  unfoldable pub shutdown_handle : Server → Bool → Server
  shutdown_handle v signal = record v { shutdown_signal = signal }

  -- The server holds a receiver of the channel itself, so sending does not fail.
  unfoldable pub shutdown : Server → Server
  shutdown v = record v { shutdown_signal = true }

-- The connection tasks, by number: `handles` is `connection_handles`, in the order of spawning, and
-- `running` are the tasks that have not ended, each of which holds a permit of the semaphore.
pub record Tasks : Type 0 where
  pub handles : List ℕ
  pub running : List ℕ
  pub next : ℕ

-- The members of a list on which a test holds.
unfoldable pub filter : (ℕ → Bool) → List ℕ → List ℕ
filter keep [] = []
filter keep (t ∷ ts) = let rest = filter keep ts in if keep t then t ∷ rest else rest

unfoldable pub mem : ℕ → List ℕ → Bool
mem t [] = false
mem t (u ∷ us) = let rest = mem t us in if t == u then true else rest

-- The tasks for which the test holds end, and give their permits back.
unfoldable pub end_tasks : (ℕ → Bool) → Tasks → Tasks
unfolding filter
end_tasks lasts w = record w { running = filter lasts w.running }

-- `connection_handles.retain(|h| !h.is_finished())`
unfoldable pub retain_unfinished : Tasks → Tasks
unfolding filter mem
retain_unfinished w = record w { handles = filter (λ t. mem t w.running) w.handles }

unfoldable pub spawn : Tasks → Tasks
spawn w = record {
  handles = w.handles ++ w.next ∷ [];
  running = w.next ∷ w.running;
  next = suc w.next;
}

-- How the `permit` of a round comes out: there is no semaphore for `max_connections == 0`, and
-- `acquire_owned` waits while all permits are held.
pub data Permit : Type 0 where
  granted no_semaphore waiting : Permit

unfoldable pub acquire : ℕ → Tasks → Permit
acquire max_connections w =
    if max_connections == 0
    then no_semaphore
    else if ltb (length w.running) max_connections
    then granted
    else waiting

-- What the `select!` of a round meets: a connection, a failed `accept` and the signal that arrives
-- in its backoff, if one does, or a change of the shutdown signal.
pub data Arrival : Type 0 where
  connection : Arrival
  accept_error : Option Bool → Arrival
  changed : Bool → Arrival

-- Whether the loop goes on behind a round, is left, or waits for a permit for good.
pub data Flow : Type 0 where
  loops breaks blocks : Flow

unfoldable pub on_signal : Bool → Flow
on_signal true = breaks
on_signal false = loops

unfoldable pub on_arrival : Arrival → Tasks → Flow × Tasks
unfolding spawn on_signal
on_arrival connection w = (loops, spawn w)
on_arrival (accept_error none) w = (loops, w)
on_arrival (accept_error (some signal)) w = (on_signal signal, w)
on_arrival (changed signal) w = (on_signal signal, w)

-- One round of the loop: which tasks last until its `retain`, which last until a permit can be had,
-- and what arrives behind that.
pub record Round : Type 0 where
  pub lasts_until_retain : ℕ → Bool
  pub lasts_until_permit : ℕ → Bool
  pub arrival : Arrival

unfoldable pub with_permit : Permit → Arrival → Tasks → Flow × Tasks
unfolding on_arrival
with_permit granted arrival w = on_arrival arrival w
with_permit no_semaphore arrival w = (breaks, w)
with_permit waiting arrival w = (blocks, w)

unfoldable pub accept_round : ℕ → Round → Tasks → Flow × Tasks
unfolding end_tasks retain_unfinished acquire with_permit
accept_round max_connections r w =
    let asked =
      end_tasks r.lasts_until_permit (retain_unfinished (end_tasks r.lasts_until_retain w)) in
    with_permit (acquire max_connections asked) r.arrival asked

-- The loop, on the rounds that happen. It ends at its `break`, or goes on where the rounds end.
unfoldable pub accept_loop : ℕ → List Round → Tasks → Flow × Tasks
unfolding accept_round
accept_loop max_connections [] w = (loops, w)
accept_loop max_connections (r ∷ rounds) w = elim (accept_round max_connections r w).0 [
  | loops ↦ accept_loop max_connections rounds (accept_round max_connections r w).1
  | breaks ↦ accept_round max_connections r w
  | blocks ↦ accept_round max_connections r w
]

-- The drain: `ends_at` is when each task ends, counted from the start of the drain. The result is the
-- handles that are aborted, and the time when the drain is over.
unfoldable pub drain_loop : ℕ → (ℕ → ℕ) → (elapsed : ℕ) → List ℕ → List ℕ × ℕ
drain_loop drain_timeout ends_at elapsed [] = ([], elapsed)
drain_loop drain_timeout ends_at elapsed (h ∷ hs) =
    let next = if leb (ends_at h) elapsed then elapsed else ends_at h in
    let rest = drain_loop drain_timeout ends_at next hs in
    if leb drain_timeout elapsed
    then (h ∷ hs, elapsed)
    else if leb (ends_at h) drain_timeout
    then rest
    else (h ∷ hs, drain_timeout)

unfoldable pub drain : ℕ → (ℕ → ℕ) → Tasks → List ℕ × ℕ
unfolding drain_loop
drain drain_timeout ends_at w = drain_loop drain_timeout ends_at 0 w.handles

-- How `run` comes out. `serving` stands for a loop that goes on behind the rounds that happened, or
-- waits for a permit for good.
pub data Outcome : Type 0 where
  not_set : Outcome
  not_bound : IoError → Outcome
  serving : Tasks → Outcome
  drained : (aborted : List ℕ) (time : ℕ) → Outcome

unfoldable pub no_tasks : Tasks
no_tasks = record { handles = []; running = []; next = 0 }

unfoldable pub leave : ℕ → (ℕ → ℕ) → Flow × Tasks → Outcome
leave drain_timeout ends_at (loops, w) = serving w
leave drain_timeout ends_at (blocks, w) = serving w
leave drain_timeout ends_at (breaks, w) =
    let (aborted, time) = drain drain_timeout ends_at w in drained aborted time

module _ (outside : Outside) where
  unfoldable pub run_bound :
      Server outside → Result IoError (Unit {0}) → List Round → (ℕ → ℕ) → Outcome
  unfolding leave no_tasks
  run_bound v (err e) rounds ends_at = not_bound e
  run_bound v (ok u) rounds ends_at =
      leave v.drain_timeout ends_at (accept_loop v.max_connections rounds no_tasks)

  -- `bound` is the result of binding the listener.
  unfoldable pub run : Server outside → Result IoError (Unit {0}) → List Round → (ℕ → ℕ) → Outcome
  unfolding run_bound
  run v bound rounds ends_at = elim v.protocol_command_handler_factory [
    | none ↦ not_set
    | some factory ↦ run_bound v bound rounds ends_at
  ]
