-- ===== src/Interleaving/Locks.antt =====
-- The locks of the client and of its ping task in src/client_tl.rs and src/ping.rs: who holds them.
use wagonet.Prelude.{◌≡◌, Bool, true, false, ◌&&◌, Option, none, some, ◌⊎◌, arith}
use wagonet.Interleaving.{
  Party, client, task, ClientPc, idle, dialing, stored, stopped, clearing, wants_in_flight,
  wants_stream, exchanging, TaskPc, absent, sleeping, holding, pinging, pinged, State, ClientStep,
  TaskStep, by_client, by_task, Reach, start, later,
}

-- Whether the client, or the task, is between taking a lock and giving it back.
abbrev pub client_in_flight : ClientPc → Bool
client_in_flight wants_stream = true
client_in_flight exchanging = true
client_in_flight _ = false

abbrev pub client_streams : ClientPc → Bool
client_streams exchanging = true
client_streams _ = false

abbrev pub task_in_flight : TaskPc → Bool
task_in_flight absent = false
task_in_flight sleeping = false
task_in_flight _ = true

abbrev pub task_streams : TaskPc → Bool
task_streams pinging = true
task_streams pinged = true
task_streams _ = false

-- Whether the client has stopped the task, and started none since.
abbrev pub has_stopped : ClientPc → Bool
has_stopped (stopped b) = true
has_stopped (clearing b) = true
has_stopped _ = false

abbrev pub is_alive : TaskPc → Bool
is_alive absent = false
is_alive _ = true

-- The holder of a lock that at most one of the two has.
abbrev pub holder : Bool → Bool → Option Party
holder true _ = some client
holder false true = some task
holder false false = none

pub record HasLocks (s : State) : Type 0 where
  pub one_in_flight : (client_in_flight s.client_pc && task_in_flight s.task_pc) ≡ false
  pub one_streams : (client_streams s.client_pc && task_streams s.task_pc) ≡ false
  pub gone : (has_stopped s.client_pc && is_alive s.task_pc) ≡ false
  pub told : (s.should_stop && is_alive s.task_pc) ≡ false
  pub in_flight : s.in_flight ≡ holder (client_in_flight s.client_pc) (task_in_flight s.task_pc)
  pub stream_lock : s.stream_lock ≡ holder (client_streams s.client_pc) (task_streams s.task_pc)

-- The premises of a step, for clauses that do not name them.
abbrev pub TaskGuard : {s t : State} → TaskStep s t → Type 0
TaskGuard {s} (TaskStep.quits _ _) = s.task_pc ≡ sleeping
TaskGuard {s} (TaskStep.claims _ _ _) = (s.task_pc ≡ sleeping) × (s.in_flight ≡ none)
TaskGuard {s} (TaskStep.finds_gone _ _ _) = s.task_pc ≡ holding
TaskGuard {s} (TaskStep.takes _ _ _) = (s.task_pc ≡ holding) × (s.stream_lock ≡ none)
TaskGuard {s} (TaskStep.sends _ _) = s.task_pc ≡ pinging
TaskGuard {s} (TaskStep.hears _ _) = s.task_pc ≡ pinged
TaskGuard {s} (TaskStep.breaks _) = (s.task_pc ≡ pinging) ⊎ (s.task_pc ≡ pinged)

pub task_guard : {s t : State} (step : TaskStep s t) → TaskGuard step
task_guard (TaskStep.quits at _) = at
task_guard (TaskStep.claims at _ free) = (at, free)
task_guard (TaskStep.finds_gone at _ _) = at
task_guard (TaskStep.takes at free _) = (at, free)
task_guard (TaskStep.sends at _) = at
task_guard (TaskStep.hears at _) = at
task_guard (TaskStep.breaks at) = at

TaskStep-HasLocks : {s t : State} → TaskStep s t → HasLocks s → HasLocks t
TaskStep-HasLocks (TaskStep.quits at on) l = ground arith
TaskStep-HasLocks step l = ground (arith, task_guard step)

abbrev pub ClientGuard : {s t : State} → ClientStep s t → Type 0
ClientGuard {s} (ClientStep.dials at _) = s.client_pc ≡ idle
ClientGuard {s} (ClientStep.connects at) = s.client_pc ≡ idle
ClientGuard {s} (ClientStep.reuses at _ _ _) = s.client_pc ≡ idle
ClientGuard {s} (ClientStep.gives_up {b} at) = s.client_pc ≡ dialing b
ClientGuard {s} (ClientStep.falls_back {b} at _ _) = s.client_pc ≡ dialing b
ClientGuard {s} (ClientStep.stores {b} at free) = s.client_pc ≡ dialing b
ClientGuard {s} (ClientStep.stops {b} at) = s.client_pc ≡ stored b
ClientGuard {s} (ClientStep.starts {b} at _) = s.client_pc ≡ stopped b
ClientGuard {s} (ClientStep.starts_none {b} at _) = s.client_pc ≡ stopped b
ClientGuard {s} (ClientStep.enters at free) = (s.client_pc ≡ wants_in_flight) × (s.in_flight ≡ none)
ClientGuard {s} (ClientStep.locks at free _) = (s.client_pc ≡ wants_stream) × (s.stream_lock ≡ none)
ClientGuard {s} (ClientStep.finds_none at _ _) = s.client_pc ≡ wants_stream
ClientGuard {s} (ClientStep.succeeds at) = s.client_pc ≡ exchanging
ClientGuard {s} (ClientStep.fails at) = s.client_pc ≡ exchanging
ClientGuard {s} (ClientStep.disables at _) = s.client_pc ≡ idle
ClientGuard {s} (ClientStep.disconnects at) = s.client_pc ≡ idle
ClientGuard {s} (ClientStep.switches_off at _) = s.client_pc ≡ clearing true
ClientGuard {s} (ClientStep.closes at _) = s.client_pc ≡ clearing false
ClientGuard {s} (ClientStep.enables _ at) = s.client_pc ≡ idle
ClientGuard {s} (ClientStep.stays_off at _) = s.client_pc ≡ idle
ClientGuard {s} (ClientStep.configures _ at) = s.client_pc ≡ idle

pub client_guard : {s t : State} (step : ClientStep s t) → ClientGuard step
client_guard (ClientStep.enters at free) = (at, free)
client_guard (ClientStep.locks at free _) = (at, free)
client_guard (ClientStep.dials at _) = at
client_guard (ClientStep.connects at) = at
client_guard (ClientStep.reuses at _ _ _) = at
client_guard (ClientStep.gives_up at) = at
client_guard (ClientStep.falls_back at _ _) = at
client_guard (ClientStep.stores at _) = at
client_guard (ClientStep.stops at) = at
client_guard (ClientStep.starts at _) = at
client_guard (ClientStep.starts_none at _) = at
client_guard (ClientStep.finds_none at _ _) = at
client_guard (ClientStep.succeeds at) = at
client_guard (ClientStep.fails at) = at
client_guard (ClientStep.disables at _) = at
client_guard (ClientStep.disconnects at) = at
client_guard (ClientStep.switches_off at _) = at
client_guard (ClientStep.closes at _) = at
client_guard (ClientStep.enables _ at) = at
client_guard (ClientStep.stays_off at _) = at
client_guard (ClientStep.configures _ at) = at

ClientStep-HasLocks : {s t : State} → ClientStep s t → HasLocks s → HasLocks t
ClientStep-HasLocks (ClientStep.connects at) l = ground arith
ClientStep-HasLocks step l = ground (arith, client_guard step)

pub Reach-HasLocks : {s : State} → Reach s → HasLocks s
Reach-HasLocks start = ground arith
Reach-HasLocks (later r (by_client step)) = ClientStep-HasLocks step (Reach-HasLocks r)
Reach-HasLocks (later r (by_task step)) = TaskStep-HasLocks step (Reach-HasLocks r)

-- While the client is in an exchange, in whatever order the client and the ping task have taken their
-- steps before, the client has both locks, the ping task has ended or is asleep, and there is no step
-- that it can take.
pub exchange_undisturbed :
    {s : State}
    → Reach s
    → s.client_pc ≡ exchanging
    → (s.in_flight ≡ some client)
      × (s.stream_lock ≡ some client)
      × ((s.task_pc ≡ absent) ⊎ (s.task_pc ≡ sleeping))
      × ¬ ((t : State) × TaskStep s t)
exchange_undisturbed {s} r at =
    let l = Reach-HasLocks r in
    (held s l at, locked s l at, rests s l at, λ (t, step). undisturbed step l at)
  where
    held : (s : State) → HasLocks s → s.client_pc ≡ exchanging → s.in_flight ≡ some client
    held s l at = ground arith

    locked : (s : State) → HasLocks s → s.client_pc ≡ exchanging → s.stream_lock ≡ some client
    locked s l at = ground arith

    rests :
        (s : State)
        → HasLocks s
        → s.client_pc ≡ exchanging
        → (s.task_pc ≡ absent) ⊎ (s.task_pc ≡ sleeping)
    rests s l at = ground arith

    undisturbed : {s t : State} → TaskStep s t → HasLocks s → s.client_pc ≡ exchanging → ⊥
    undisturbed (TaskStep.quits here on) l at = ground arith
    undisturbed step l at = ground (arith, task_guard step)
