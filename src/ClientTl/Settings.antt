-- ===== src/ClientTl/Settings.antt =====
-- What holds of a client over its whole life: its settings agree, and its ping tasks are accounted
-- for.
use wagonet.Prelude.{
  ℕ, ◌≡◌, refl, sym, ap, ◌∙◌, Bool, true, false, [], String, arith, ◌⊎◌, inl, inr, ◌&&◌, ltb,
}
use wagonet.Errors.{Error, Result, ok, err}
use wagonet.Timeouts.{TimeoutConfig, validate, with_ping_interval, default_timeout_config}
use wagonet.Timeouts.Clamping.{IsValid, validate_iff}
use wagonet.Socket.{Socket}
use wagonet.Ping
use wagonet.Ping.{
  PingState, Locks, Wakeup, ping_round, stop_ping_task, start_ping_task, touch_activity, without,
}
use wagonet.Ping.Tasks.{
  IsTracked, stop_ping_task_clears, start_ping_task-IsTracked, stop_ping_task-settings,
  start_ping_task-settings,
}
use wagonet.ClientTl.{ClientTl, new, set_timeout_config, establish, start_if}

module _ (socket : Socket) where
  -- The settings are valid, the ping task sees the settings of the client, and at most one ping
  -- task is alive, the one whose handle is held.
  pub record IsSound (c : ClientTl socket) : Type 0 where
    pub valid : IsValid c.timeout_config
    pub interval : c.ping_state.config.interval ≡ c.timeout_config.ping_interval
    pub timeouts : c.ping_state.timeout_config ≡ c.timeout_config
    pub tracked : IsTracked c.ping_state

  pub new-IsSound : (address : String) (now : ℕ) → IsSound (new socket address now)
  unfolding new Ping.new
  new-IsSound address now = record {
    valid = (validate_iff default_timeout_config).0 (unfold validate in refl);
    interval = refl;
    timeouts = refl;
    tracked = inl refl;
  }

  -- A change of timeouts whose clamped form `validate` refuses fails and changes nothing. Any other
  -- succeeds: the client has the clamped form, which is valid, the ping task has the same one and
  -- its interval, and pings are enabled just with keep-alive and an interval other than zero.
  pub set_timeout_config_lem :
      (t : TimeoutConfig) (c : ClientTl socket)
      → let r = set_timeout_config socket t c in
        ((x : Error) × (validate (with_ping_interval t t.ping_interval) ≡ err x) × (r ≡ (err x, c)))
        ⊎ ((r.0 ≡ ok tt)
            × (r.1.timeout_config ≡ with_ping_interval t t.ping_interval)
            × IsValid r.1.timeout_config
            × (r.1.ping_state.config.interval ≡ r.1.timeout_config.ping_interval)
            × (r.1.ping_state.timeout_config ≡ r.1.timeout_config)
            × (r.1.ping_state.config.enabled
                ≡ (c.keep_alive && ltb 0 r.1.timeout_config.ping_interval)))
  unfolding set_timeout_config
  set_timeout_config_lem t c = go (validate (with_ping_interval t t.ping_interval)) refl
    where
      go :
          (v : Result Error (Unit {0}))
          → validate (with_ping_interval t t.ping_interval) ≡ v
          → let r = set_timeout_config socket t c in
            ((x : Error) × (validate (with_ping_interval t t.ping_interval) ≡ err x)
              × (r ≡ (err x, c)))
            ⊎ ((r.0 ≡ ok tt)
                × (r.1.timeout_config ≡ with_ping_interval t t.ping_interval)
                × IsValid r.1.timeout_config
                × (r.1.ping_state.config.interval ≡ r.1.timeout_config.ping_interval)
                × (r.1.ping_state.timeout_config ≡ r.1.timeout_config)
                × (r.1.ping_state.config.enabled
                    ≡ (c.keep_alive && ltb 0 r.1.timeout_config.ping_interval)))
      go (ok u) is = inr (
        ground (arith, is),
        ground (arith, is),
        (rw (is, set_timeout_config) ((validate_iff (with_ping_interval t t.ping_interval)).0 is)),
        ground (arith, is),
        ground (arith, is),
        ground (arith, is),
      )
      go (err x) is = inl (x, is, ground (arith, is))

  abbrev pub IsFree : Locks → Type 0
  IsFree locks = locks.task_handle_free ≡ true

  -- A ping state after its task was stopped.
  pub stop-IsTracked :
      (locks : Locks) (p : PingState)
      → IsFree locks
      → IsTracked p
      → IsTracked (stop_ping_task locks p)
  stop-IsTracked locks p free tracked = inl (stop_ping_task_clears locks p free tracked).0

  -- What the invariant says of a ping state, for given settings.
  pub record Agrees (t : TimeoutConfig) (p : PingState) : Type 0 where
    pub interval_agrees : p.config.interval ≡ t.ping_interval
    pub timeouts_agree : p.timeout_config ≡ t
    pub tasks : IsTracked p

  pub agrees : (c : ClientTl socket) → IsSound c → Agrees c.timeout_config c.ping_state
  agrees c sound = record {
    interval_agrees = sound.interval;
    timeouts_agree = sound.timeouts;
    tasks = sound.tracked;
  }

  pub IsSound-by :
      (c : ClientTl socket)
      → IsValid c.timeout_config
      → Agrees c.timeout_config c.ping_state
      → IsSound c
  IsSound-by c valid a = record {
    valid = valid;
    interval = a.interval_agrees;
    timeouts = a.timeouts_agree;
    tracked = a.tasks;
  }

  pub stop-Agrees :
      (locks : Locks) (t : TimeoutConfig) (p : PingState)
      → IsFree locks
      → Agrees t p
      → Agrees t (stop_ping_task locks p)
  stop-Agrees locks t p free a =
      let (same_config, same_timeouts) = stop_ping_task-settings locks p in
      record {
        interval_agrees = ap (λ k. k.interval) same_config ∙ a.interval_agrees;
        timeouts_agree = same_timeouts ∙ a.timeouts_agree;
        tasks = stop-IsTracked locks p free a.tasks;
      }

  start_if-Agrees :
      (b : Bool) (t : TimeoutConfig) (p : PingState)
      → p.alive ≡ []
      → Agrees t p
      → Agrees t (start_if socket b p)
  unfolding start_if
  start_if-Agrees false t p gone a = a
  start_if-Agrees true t p gone a =
      let (same_config, same_timeouts) = start_ping_task-settings p in
      record {
        interval_agrees = ap (λ k. k.interval) same_config ∙ a.interval_agrees;
        timeouts_agree = same_timeouts ∙ a.timeouts_agree;
        tasks = start_ping_task-IsTracked p gone;
      }

  pub establish-IsSound :
      (locks : Locks) (stream : socket.State) (c : ClientTl socket)
      → IsFree locks
      → IsSound c
      → IsSound (establish socket locks stream c)
  unfolding establish
  establish-IsSound locks stream c free sound =
      let p = stop_ping_task locks c.ping_state in
      IsSound-by _ sound.valid (
        start_if-Agrees (c.keep_alive && p.config.enabled) c.timeout_config p
          (stop_ping_task_clears locks c.ping_state free sound.tracked).0
          (stop-Agrees locks c.timeout_config c.ping_state free (agrees c sound)))

  -- The invariant is about the settings and the ping state only.
  pub same-IsSound :
      (c c' : ClientTl socket)
      → c'.timeout_config ≡ c.timeout_config
      → c'.ping_state.config ≡ c.ping_state.config
      → c'.ping_state.timeout_config ≡ c.ping_state.timeout_config
      → IsTracked c'.ping_state
      → IsSound c
      → IsSound c'
  same-IsSound c c' same_settings same_config same_timeouts tracked sound = record {
    valid = rw same_settings sound.valid;
    interval =
        ap (λ k. k.interval) same_config
        ∙ sound.interval
        ∙ ap (λ t. t.ping_interval) (sym same_settings);
    timeouts = same_timeouts ∙ sound.timeouts ∙ sym same_settings;
    tracked = tracked;
  }
