-- ===== src/Interleaving/Answers.antt =====
-- The answers to pings that are still to come on the stream of src/client_tl.rs when an exchange
-- begins, and what `connect` does to a ping task of src/ping.rs that is there.
use wagonet.Prelude.{ℕ, ◌≡◌, refl, Bool, true, false, not, ◌&&◌, Option, none, some, ◌⊎◌, arith}
use wagonet.Interleaving.{
  ClientPc, idle, dialing, stored, stopped, exchanging, clearing, TaskPc, sleeping, pinged, State,
  initial, ClientStep, TaskStep, Step, by_client, by_task, Reach, start, later,
}
use wagonet.Interleaving.Locks.{HasLocks, Reach-HasLocks, is_alive, task_guard, client_guard}

-- The owner calls `connect` only where no connection is kept.
abbrev pub IsCalm : {s t : State} → Step s t → Type 0
IsCalm {s} (by_client (ClientStep.connects at)) = (s.keep_alive ≡ false) ⊎ (s.stream ≡ none)
IsCalm _ = Unit

pub data CalmReach : State → Type 0 where
  fresh : CalmReach initial
  and_then : {s t : State} → CalmReach s → (step : Step s t) → IsCalm step → CalmReach t

pub CalmReach-Reach : {s : State} → CalmReach s → Reach s
CalmReach-Reach fresh = start
CalmReach-Reach (and_then r step calm) = later (CalmReach-Reach r) step

abbrev is_some : Option ℕ → Bool
is_some none = false
is_some (some n) = true

-- The answers that are to come on a stream.
abbrev owed : Option ℕ → ℕ
owed none = 0
owed (some n) = n

-- The answers that the task is about to read.
abbrev awaited : TaskPc → ℕ
awaited pinged = 1
awaited _ = 0

abbrev connecting : ClientPc → Bool
connecting (dialing b) = true
connecting (stored b) = true
connecting _ = false

-- Where the client counts on a stream.
abbrev streaming : ClientPc → Bool
streaming (stored b) = true
streaming (stopped b) = true
streaming exchanging = true
streaming _ = false

abbrev is_clearing : ClientPc → Bool
is_clearing (clearing b) = true
is_clearing _ = false

record IsSettled (s : State) : Type 0 where
  answers : (is_clearing s.client_pc ≡ true) ⊎ (owed s.stream ≡ awaited s.task_pc)
  attached : (is_alive s.task_pc && not (is_some s.stream)) ≡ false
  kept : (is_alive s.task_pc && not s.keep_alive) ≡ false
  undialled : (connecting s.client_pc && is_alive s.task_pc) ≡ false
  placed : (streaming s.client_pc && not (is_some s.stream)) ≡ false

TaskStep-IsSettled : {s t : State} → TaskStep s t → HasLocks s → IsSettled s → IsSettled t
TaskStep-IsSettled (TaskStep.quits at on) l i = ground arith
TaskStep-IsSettled (TaskStep.sends at on) l i = ground arith
TaskStep-IsSettled (TaskStep.hears at on) l i = ground arith
TaskStep-IsSettled step l i = ground (arith, task_guard step)

ClientStep-IsSettled :
    {s t : State} (step : ClientStep s t)
    → IsCalm (by_client step)
    → HasLocks s
    → IsSettled s
    → IsSettled t
ClientStep-IsSettled (ClientStep.connects at) calm l i = ground arith
ClientStep-IsSettled (ClientStep.dials at need) calm l i = ground arith
ClientStep-IsSettled (ClientStep.locks at free held) calm l i = ground arith
ClientStep-IsSettled (ClientStep.starts at on) calm l i = ground arith
ClientStep-IsSettled step calm l i = ground (arith, client_guard step)

CalmReach-IsSettled : {s : State} → CalmReach s → IsSettled s
CalmReach-IsSettled fresh = ground arith
CalmReach-IsSettled (and_then r (by_client step) calm) =
    ClientStep-IsSettled step calm (Reach-HasLocks (CalmReach-Reach r)) (CalmReach-IsSettled r)
CalmReach-IsSettled (and_then r (by_task step) calm) =
    TaskStep-IsSettled step (Reach-HasLocks (CalmReach-Reach r)) (CalmReach-IsSettled r)

-- Where the owner of the client calls `connect` only while keep-alive is off or no connection is held,
-- then in whatever order the client and the ping task take their steps, an exchange runs on a stream
-- on which no answer to a ping is still to come.
pub answers_read : {s : State} → CalmReach s → s.client_pc ≡ exchanging → s.stream ≡ some 0
answers_read r at =
    let i = CalmReach-IsSettled r in let l = Reach-HasLocks (CalmReach-Reach r) in ground arith

-- Where the client is idle with keep-alive and pings on, the ping task is asleep and has not been told
-- to stop, and the locks are free: a call of `connect` followed by `handle_message` can run its
-- exchange on a new stream on which the answer to a ping is still to come, while the one ping task
-- that there is sleeps.
pub connect_strays :
    {s : State}
    → Reach s
    → s.client_pc ≡ idle
    → s.task_pc ≡ sleeping
    → s.should_stop ≡ false
    → s.in_flight ≡ none
    → s.stream_lock ≡ none
    → s.keep_alive ≡ true
    → s.enabled ≡ true
    → (t : State) × Reach t
      × (t.client_pc ≡ exchanging)
      × (t.stream ≡ some 1)
      × (t.task_pc ≡ sleeping)
connect_strays {s} r at asleep runs free free' alive on =
    let a = later r (by_client (ClientStep.connects at)) in
    let b = later a (by_task (TaskStep.claims asleep runs free)) in
    let c = later b (by_client (ClientStep.stores refl free')) in
    let d = later c (by_task (TaskStep.takes refl free' refl)) in
    let e = later d (by_task (TaskStep.sends refl refl)) in
    let f = later e (by_client (ClientStep.stops refl)) in
    let g = later f (by_client (ClientStep.starts refl (rw (alive, on) refl))) in
    let h = later g (by_client (ClientStep.reuses refl alive refl refl)) in
    let i = later h (by_client (ClientStep.enters refl refl)) in
    let j = later i (by_client (ClientStep.locks refl refl refl)) in (_, j, refl, refl, refl)
