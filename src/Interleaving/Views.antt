-- ===== src/Interleaving/Views.antt =====
-- What a `ClientTl` and its `PingState` are as a state of `Interleaving` while no call runs, and the
-- steps that the calls and the rounds of src/client_tl.rs and src/ping.rs are made of.
use wagonet.Prelude.{
  ℕ, ◌≡◌, refl, Bool, true, false, not, ◌&&◌, Option, none, some, List, [], ◌∷◌, ◌⊎◌, inl, inr,
  Bool-cases,
}
use wagonet.Socket.{Socket}
use wagonet.ClientTl.{ClientTl}
use wagonet.Interleaving.{
  client, task, ClientPc, idle, dialing, exchanging, behind, wants_in_flight, TaskPc, absent,
  sleeping, pinging, State, ClientStep, TaskStep, Step, by_client, by_task, Reach, later,
}

pub data Run (s : State) : State → Type 0 where
  done : Run s s
  next : {t u : State} → Run s t → Step t u → Run s u

pub Run-Reach : {s t : State} → Reach s → Run s t → Reach t
Run-Reach r done = r
Run-Reach r (next run step) = later (Run-Reach r run) step

-- The client at `pc`, the task at rest, and the locks free.
abbrev pub at_rest : ClientPc → Option ℕ → Bool → Bool → Bool → TaskPc → State
at_rest pc stream told keeps on seated = record {
  stream = stream;
  stream_lock = none;
  in_flight = none;
  should_stop = told;
  keep_alive = keeps;
  enabled = on;
  client_pc = pc;
  task_pc = seated;
}

abbrev pub resting : Option ℕ → Bool → Bool → Bool → TaskPc → State
resting = at_rest idle

abbrev pub calling : Option ℕ → Bool → Bool → Bool → TaskPc → State
calling = at_rest wants_in_flight

abbrev pub seat : Bool → TaskPc
seat true = sleeping
seat false = absent

abbrev pub has_task : List ℕ → Bool
has_task [] = false
has_task (t ∷ ts) = true

module _ (socket : Socket) where
  abbrev pub owing : Option socket.State → Option ℕ
  owing none = none
  owing (some s) = some 0

  -- Between two calls and rounds no ping waits for its answer. A task that was told to stop is taken for one that has ended.
  abbrev pub view : ClientTl socket → State
  view c =
      resting (owing c.stream) c.ping_state.should_stop c.keep_alive c.ping_state.config.enabled
        (seat (not c.ping_state.should_stop && has_task c.ping_state.alive))

module _ {s : State} {told on : Bool} {seated : TaskPc} {n : ℕ} where
  -- `handle_message` with keep-alive and a stream
  pub reuses-Run :
      Run s (resting (some n) told true on seated) → Run s (calling (some n) told true on seated)
  reuses-Run run = next run (by_client (ClientStep.reuses refl refl refl refl))

  -- `handle_message` where all attempts to connect fail, and goes on with the earlier stream
  pub falls_back-Run :
      Run s (resting (some n) told false on seated) → Run s (calling (some n) told false on seated)
  falls_back-Run run =
      next (next run (by_client (ClientStep.dials refl (inl refl))))
        (by_client (ClientStep.falls_back refl refl refl))

module _ {s : State} {told keeps on : Bool} {seated : TaskPc} {stream : Option ℕ} where
  pub dials-Run :
      (keeps ≡ false) ⊎ (stream ≡ none)
      → Run s (resting stream told keeps on seated)
      → Run s (at_rest (dialing true) stream told keeps on seated)
  dials-Run (inl off) run = next run (by_client (ClientStep.dials refl (inl off)))
  dials-Run (inr gone) run = next run (by_client (ClientStep.dials refl (inr (refl, gone))))

  -- `connect` where all attempts fail and no earlier stream is there, or where its total deadline passes
  pub gives_up-Run :
      {for_message : Bool}
      → Run s (at_rest (dialing for_message) stream told keeps on seated)
      → Run s (resting stream told keeps on seated)
  gives_up-Run run = next run (by_client (ClientStep.gives_up refl))

  -- An attempt to connect that succeeds, to the end of `connect`
  pub connected-Run :
      (for_message : Bool)
      → Run s (at_rest (dialing for_message) stream told keeps on seated)
      → Run s
          (at_rest (behind for_message) (some 0) (not (keeps && on)) keeps on (seat (keeps && on)))
  connected-Run b run =
      let stopped =
        next (next run (by_client (ClientStep.stores refl refl)))
          (by_client (ClientStep.stops refl)) in
      elim (Bool-cases (keeps && on)) [
        | inl starts ↦ rw starts (next stopped (by_client (ClientStep.starts refl starts)))
        | inr not_started ↦
            rw not_started (next stopped (by_client (ClientStep.starts_none refl not_started)))
      ]

  pub disconnects-Run :
      Run s (resting stream told keeps on seated) → Run s (resting none true keeps on absent)
  disconnects-Run run =
      next (next run (by_client (ClientStep.disconnects refl)))
        (by_client (ClientStep.closes refl refl))

module _ {s : State} {told keeps on : Bool} {seated : TaskPc} {n : ℕ} where
  exchanging-Run :
      Run s (calling (some n) told keeps on seated)
      → Run s (record (calling (some n) told keeps on seated) {
        in_flight = some client;
        stream_lock = some client;
        client_pc = exchanging;
      })
  exchanging-Run run =
      next (next run (by_client (ClientStep.enters refl refl)))
        (by_client (ClientStep.locks refl refl refl))

  pub succeeds-Run :
      Run s (calling (some n) told keeps on seated) → Run s (resting (some n) told keeps on seated)
  succeeds-Run run = next (exchanging-Run run) (by_client (ClientStep.succeeds refl))

  pub fails-Run :
      Run s (calling (some n) told keeps on seated) → Run s (resting none true keeps on absent)
  fails-Run run = next (exchanging-Run run) (by_client (ClientStep.fails refl))

module _ {s : State} {keeps on : Bool} where
  -- The rounds of a task that is asleep.
  pub finds_gone-Run :
      Run s (resting none false keeps on sleeping) → Run s (resting none true keeps on absent)
  finds_gone-Run run =
      next (next run (by_task (TaskStep.claims refl refl refl)))
        (by_task (TaskStep.finds_gone refl refl refl))

  module _ {n : ℕ} (run : Run s (resting (some n) false keeps on sleeping)) where
    pinging-Run : Run s (record (resting (some n) false keeps on pinging) {
      in_flight = some task;
      stream_lock = some task;
    })
    pinging-Run =
        next (next run (by_task (TaskStep.claims refl refl refl)))
          (by_task (TaskStep.takes refl refl refl))

    pub pings-Run : Run s (resting (some n) false keeps on sleeping)
    pings-Run =
        next (next pinging-Run (by_task (TaskStep.sends refl refl)))
          (by_task (TaskStep.hears refl refl))

    pub breaks-Run : Run s (resting none true keeps on absent)
    breaks-Run = next pinging-Run (by_task (TaskStep.breaks (inl refl)))
