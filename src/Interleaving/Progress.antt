-- ===== src/Interleaving/Progress.antt =====
-- Waiting for a lock: when the client of src/client_tl.rs can go on, and what the ping task of
-- src/ping.rs does meanwhile. Both take `in_flight` before the lock of the stream.
use wagonet.Prelude.{
  ℕ, ◌<◌, ◌≤◌, ◌≡◌, refl, Bool, true, false, ◌&&◌, Option, none, some, ◌⊎◌, inl, inr, Bool-cases,
  arith,
}
use wagonet.Interleaving.{
  Party, ClientPc, idle, dialing, stored, stopped, wants_in_flight, wants_stream, exchanging,
  clearing, TaskPc, absent, sleeping, holding, pinging, pinged, State, ClientStep, TaskStep, Reach,
}
use wagonet.Interleaving.Locks.{HasLocks, Reach-HasLocks, task_guard, task_in_flight, task_streams}

-- Whether a step takes the call that the client is in further, or, where it is in none, is the first
-- of `handle_message`.
abbrev pub goes_on : {s t : State} → ClientStep s t → Bool
goes_on (ClientStep.gives_up at) = false
goes_on (ClientStep.connects at) = false
goes_on (ClientStep.disables at alive) = false
goes_on (ClientStep.disconnects at) = false
goes_on (ClientStep.enables on at) = false
goes_on (ClientStep.stays_off at off) = false
goes_on (ClientStep.configures on at) = false
goes_on _ = true

abbrev pub GoesOn : State → Type 0
GoesOn s = (t : State) × (step : ClientStep s t) × (goes_on step ≡ true)

abbrev pub is_taken : Option Party → Bool
is_taken none = false
is_taken (some p) = true

-- Whether the client is at a lock that is taken.
abbrev waits_at : ClientPc → Bool → Bool → Bool → Bool
waits_at idle keeps in_flight stream = keeps && stream
waits_at (dialing b) keeps in_flight stream = stream
waits_at wants_in_flight keeps in_flight stream = in_flight
waits_at wants_stream keeps in_flight stream = stream
waits_at (clearing b) keeps in_flight stream = stream
waits_at _ keeps in_flight stream = false

abbrev pub is_waiting : State → Bool
is_waiting s = waits_at s.client_pc s.keep_alive (is_taken s.in_flight) (is_taken s.stream_lock)

-- The most steps that the task takes before it has given its locks back.
abbrev pub rounds_left : TaskPc → ℕ
rounds_left holding = 3
rounds_left pinging = 2
rounds_left pinged = 1
rounds_left _ = 0

-- A step of a task that has `in_flight` brings it nearer to giving it back.
TaskStep-rounds_left :
    {s t : State}
    → TaskStep s t
    → task_in_flight s.task_pc ≡ true
    → rounds_left t.task_pc < rounds_left s.task_pc
TaskStep-rounds_left (TaskStep.quits at on) has = ground arith
TaskStep-rounds_left step has = ground (arith, task_guard step)

data IsStream (o : Option ℕ) : Type 0 where
  gone : o ≡ none → IsStream o
  held : (n : ℕ) → o ≡ some n → IsStream o

is_stream : (o : Option ℕ) → IsStream o
is_stream none = gone refl
is_stream (some n) = held n refl

is_taken-false : (o : Option Party) → is_taken o ≡ false → o ≡ none
is_taken-false none free = refl
is_taken-false (some p) free = ground arith

-- A step of the client that a task does not keep waiting.
waits_at-GoesOn :
    (s : State)
    → (pc : ClientPc) → s.client_pc ≡ pc
    → waits_at pc s.keep_alive (is_taken s.in_flight) (is_taken s.stream_lock) ≡ false
    → GoesOn s
waits_at-GoesOn s idle at free = elim (Bool-cases s.keep_alive) [
  | inr off ↦ (_, ClientStep.dials at (inl off), refl)
  | inl on ↦ elim (is_stream s.stream) [
    | gone lost ↦ (_, ClientStep.dials at (inr (is_taken-false _ (ground arith), lost)), refl)
    | held n has ↦ (_, ClientStep.reuses at on (is_taken-false _ (ground arith)) has, refl)
  ]
]
waits_at-GoesOn s (dialing b) at free = (_, ClientStep.stores at (is_taken-false _ free), refl)
waits_at-GoesOn s (stored b) at free = (_, ClientStep.stops at, refl)
waits_at-GoesOn s (stopped b) at free = elim (Bool-cases (s.keep_alive && s.enabled)) [
  | inl on ↦ (_, ClientStep.starts at on, refl)
  | inr off ↦ (_, ClientStep.starts_none at off, refl)
]
waits_at-GoesOn s wants_in_flight at free = (_, ClientStep.enters at (is_taken-false _ free), refl)
waits_at-GoesOn s wants_stream at free = elim (is_stream s.stream) [
  | gone lost ↦ (_, ClientStep.finds_none at (is_taken-false _ free) lost, refl)
  | held n has ↦ (_, ClientStep.locks at (is_taken-false _ free) has, refl)
]
waits_at-GoesOn s exchanging at free = (_, ClientStep.succeeds at, refl)
waits_at-GoesOn s (clearing true) at free =
    (_, ClientStep.switches_off at (is_taken-false _ free), refl)
waits_at-GoesOn s (clearing false) at free = (_, ClientStep.closes at (is_taken-false _ free), refl)

abbrev pub TaskMoves : State → Type 0
TaskMoves s = (t : State) × TaskStep s t

-- A task that has `in_flight` can move where the client has not the stream.
moves :
    (s : State)
    → (pc : TaskPc) → s.task_pc ≡ pc
    → task_in_flight pc ≡ true
    → (task_streams pc ≡ true) ⊎ (s.stream_lock ≡ none)
    → TaskMoves s
moves s absent at has free = ground arith
moves s sleeping at has free = ground arith
moves s holding at has free = elim (is_stream s.stream) [
  | gone lost ↦ (_, TaskStep.finds_gone at (ground arith) lost)
  | held n there ↦ (_, TaskStep.takes at (ground arith) there)
]
moves s pinging at has free = (_, TaskStep.breaks (inl at))
moves s pinged at has free = (_, TaskStep.breaks (inr at))

-- In whatever order the client and the ping task have taken their steps, either the client can take
-- the call that it is in further, or it waits for a lock that the task has; then the task can take a
-- step, and there is no step of it but those that bring it nearer to giving its locks back, of which it
-- is at most three steps away.
pub no_deadlock :
    {s : State}
    → Reach s
    → ((is_waiting s ≡ false) × GoesOn s)
      ⊎ ((is_waiting s ≡ true)
          × TaskMoves s
          × (rounds_left s.task_pc ≤ 3)
          × ¬ ((t : State) × TaskStep s t × (rounds_left s.task_pc ≤ rounds_left t.task_pc)))
no_deadlock {s} r = elim (Bool-cases (is_waiting s)) [
  | inr free ↦ inl (free, waits_at-GoesOn s s.client_pc refl free)
  | inl taken ↦
      let l = Reach-HasLocks r in
      inr (
        taken,
        moves s s.task_pc refl (blocks s l taken) (frees s l taken),
        at_most s.task_pc,
        λ (t, step, stays). nearer (TaskStep-rounds_left step (blocks s l taken)) stays,
      )
]
  where
    blocks : (s : State) → HasLocks s → is_waiting s ≡ true → task_in_flight s.task_pc ≡ true
    blocks s l taken = ground arith

    frees :
        (s : State)
        → HasLocks s
        → is_waiting s ≡ true
        → (task_streams s.task_pc ≡ true) ⊎ (s.stream_lock ≡ none)
    frees s l taken = ground arith

    at_most : (pc : TaskPc) → rounds_left pc ≤ 3
    at_most pc = ground arith

    nearer : {a b : ℕ} → a < b → b ≤ a → ⊥
    nearer l m = omega arith
