-- ===== src/Interleaving.antt =====
-- The client of src/client_tl.rs and the ping task of src/ping.rs, which share a stream and two locks,
-- one step between two `await`s at a time, in any order. src/client_tls.rs takes the same steps. Left
-- out are a call that its owner drops before the end, the total deadline of `connect` behind the stop of
-- the old task, and what a task that was aborted while it runs still does until its next `await`. The other mutexes guard one access each and are not waited for.
pub mod Locks
pub mod Answers
pub mod Progress
pub mod Views
pub mod Messages
pub mod Calls
pub mod Rounds
pub mod Refinement
use wagonet.Prelude.{ℕ, zero, suc, ◌≡◌, ◌≢◌, Bool, true, false, ◌&&◌, Option, none, some, ◌⊎◌}

pub data Party : Type 0 where
  client task : Party

-- Where the client stands. The flag says whether `connect` was called by `handle_message`, which then
-- goes on, and whether the stream is cleared by `set_keep_alive`, which then switches keep-alive off.
pub data ClientPc : Type 0 where
  idle : ClientPc
  dialing : (for_message : Bool) → ClientPc  -- in the attempts of `connect`
  stored : (for_message : Bool) → ClientPc  -- the new stream is in place
  stopped : (for_message : Bool) → ClientPc  -- behind `stop_ping_task`
  wants_in_flight : ClientPc  -- at `acquire_in_flight`
  wants_stream : ClientPc  -- at the lock of the stream
  exchanging : ClientPc  -- in the exchange, with both locks
  clearing : (switches_off : Bool) → ClientPc  -- about to clear the stream

-- Where the ping task stands; `absent` when there is none.
pub data TaskPc : Type 0 where
  absent : TaskPc
  sleeping : TaskPc
  holding : TaskPc  -- has `in_flight`, at the lock of the stream
  pinging : TaskPc  -- has both locks, about to send the ping
  pinged : TaskPc  -- has sent it, about to read the answer

-- What the two share. A connection is known by the answers to pings that are still to come on it.
pub record State : Type 0 where
  pub stream : Option ℕ
  pub stream_lock : Option Party
  pub in_flight : Option Party
  pub should_stop : Bool
  pub keep_alive : Bool
  pub enabled : Bool
  pub client_pc : ClientPc
  pub task_pc : TaskPc

-- A client that was just made; `enabled` is whether the default interval is not zero.
abbrev pub initial : State
initial = record {
  stream = none;
  stream_lock = none;
  in_flight = none;
  should_stop = false;
  keep_alive = false;
  enabled = true;
  client_pc = idle;
  task_pc = absent;
}

-- A lock behind the abort of the task: its guards are dropped.
abbrev pub freed : Option Party → Option Party
freed (some task) = none
freed (some client) = some client
freed none = none

-- `stop_ping_task`
abbrev pub stop_task : State → State
stop_task s = record s {
  stream_lock = freed s.stream_lock;
  in_flight = freed s.in_flight;
  should_stop = true;
  task_pc = absent;
}

-- Where the client stands behind `connect`.
abbrev pub behind : Bool → ClientPc
behind true = wants_in_flight
behind false = idle

pub data ClientStep (s : State) : State → Type 0 where
  reuses :
      {n : ℕ}
      → s.client_pc ≡ idle
      → s.keep_alive ≡ true
      → s.stream_lock ≡ none
      → s.stream ≡ some n
      → ClientStep s (record s { client_pc = wants_in_flight })
  dials :
      s.client_pc ≡ idle
      → (s.keep_alive ≡ false) ⊎ ((s.stream_lock ≡ none) × (s.stream ≡ none))
      → ClientStep s (record s { client_pc = dialing true })
  connects : s.client_pc ≡ idle → ClientStep s (record s { client_pc = dialing false })
  gives_up : {b : Bool} → s.client_pc ≡ dialing b → ClientStep s (record s { client_pc = idle })
  -- all attempts failed, but an earlier connection is there
  falls_back :
      {b : Bool} {n : ℕ}
      → s.client_pc ≡ dialing b
      → s.stream_lock ≡ none
      → s.stream ≡ some n
      → ClientStep s (record s { client_pc = behind b })
  stores :
      {b : Bool}
      → s.client_pc ≡ dialing b
      → s.stream_lock ≡ none
      → ClientStep s (record s { stream = some 0; client_pc = stored b })
  stops :
      {b : Bool}
      → s.client_pc ≡ stored b
      → ClientStep s (record (stop_task s) { client_pc = stopped b })
  starts :
      {b : Bool}
      → s.client_pc ≡ stopped b
      → (s.keep_alive && s.enabled) ≡ true
      → ClientStep s (record s { should_stop = false; task_pc = sleeping; client_pc = behind b })
  starts_none :
      {b : Bool}
      → s.client_pc ≡ stopped b
      → (s.keep_alive && s.enabled) ≡ false
      → ClientStep s (record s { client_pc = behind b })
  enters :
      s.client_pc ≡ wants_in_flight
      → s.in_flight ≡ none
      → ClientStep s (record s { in_flight = some client; client_pc = wants_stream })
  locks :
      {n : ℕ}
      → s.client_pc ≡ wants_stream
      → s.stream_lock ≡ none
      → s.stream ≡ some n
      → ClientStep s (record s { stream_lock = some client; client_pc = exchanging })
  finds_none :
      s.client_pc ≡ wants_stream
      → s.stream_lock ≡ none
      → s.stream ≡ none
      → ClientStep s (record s { in_flight = none; client_pc = idle })
  succeeds :
      s.client_pc ≡ exchanging
      → ClientStep s (record s { stream_lock = none; in_flight = none; client_pc = idle })
  fails :
      s.client_pc ≡ exchanging
      → ClientStep s (record (stop_task s) {
        stream = none;
        stream_lock = none;
        in_flight = none;
        client_pc = idle;
      })
  disables :
      s.client_pc ≡ idle
      → s.keep_alive ≡ true
      → ClientStep s (record (stop_task s) { client_pc = clearing true })
  disconnects :
      s.client_pc ≡ idle → ClientStep s (record (stop_task s) { client_pc = clearing false })
  switches_off :
      s.client_pc ≡ clearing true
      → s.stream_lock ≡ none
      → ClientStep s
          (record s { stream = none; keep_alive = false; enabled = false; client_pc = idle })
  closes :
      s.client_pc ≡ clearing false
      → s.stream_lock ≡ none
      → ClientStep s (record s { stream = none; client_pc = idle })
  -- `set_keep_alive` where no connection is dropped; `positive` is whether the interval is not zero
  enables :
      (positive : Bool)
      → s.client_pc ≡ idle
      → ClientStep s (record s { keep_alive = true; enabled = positive })
  stays_off :
      s.client_pc ≡ idle → s.keep_alive ≡ false → ClientStep s (record s { enabled = false })
  -- `set_timeout_config`
  configures :
      (positive : Bool)
      → s.client_pc ≡ idle
      → ClientStep s (record s { enabled = s.keep_alive && positive })

pub data TaskStep (s : State) : State → Type 0 where
  quits : s.task_pc ≡ sleeping → s.should_stop ≡ true → TaskStep s (record s { task_pc = absent })
  claims :
      s.task_pc ≡ sleeping
      → s.should_stop ≡ false
      → s.in_flight ≡ none
      → TaskStep s (record s { in_flight = some task; task_pc = holding })
  finds_gone :
      s.task_pc ≡ holding
      → s.stream_lock ≡ none
      → s.stream ≡ none
      → TaskStep s (record s { in_flight = none; should_stop = true; task_pc = absent })
  takes :
      {n : ℕ}
      → s.task_pc ≡ holding
      → s.stream_lock ≡ none
      → s.stream ≡ some n
      → TaskStep s (record s { stream_lock = some task; task_pc = pinging })
  sends :
      {n : ℕ}
      → s.task_pc ≡ pinging
      → s.stream ≡ some n
      → TaskStep s (record s { stream = some (suc n); task_pc = pinged })
  hears :
      {n : ℕ}
      → s.task_pc ≡ pinged
      → s.stream ≡ some (suc n)
      → TaskStep s
          (record s { stream = some n; stream_lock = none; in_flight = none; task_pc = sleeping })
  -- the ping failed, when it was sent or when its answer was read
  breaks :
      (s.task_pc ≡ pinging) ⊎ (s.task_pc ≡ pinged)
      → TaskStep s (record s {
        stream = none;
        stream_lock = none;
        in_flight = none;
        should_stop = true;
        task_pc = absent;
      })

-- A round of the task that ends in `continue` changes nothing, and is no step.
pub data Step (s t : State) : Type 0 where
  by_client : ClientStep s t → Step s t
  by_task : TaskStep s t → Step s t

pub data Reach : State → Type 0 where
  start : Reach initial
  later : {s t : State} → Reach s → Step s t → Reach t
