-- ===== src/Server/Accepting.antt =====
-- What the accept loop keeps, round by round.
use wagonet.Prelude.{
  ℕ, ◌≤◌, ◌<◌, ◌≡◌, refl, ap, Bool, true, none, some, List, [], ◌∷◌, ◌++◌, arith, length, ◌==◌, ◌⊎◌,
  inl, inr, Bool-cases,
}
use wagonet.Errors.{ok}
use wagonet.Server.{
  Outside, Server, run, drained, drain, drain_loop, Tasks, Round, Arrival, connection, accept_error,
  changed, Flow, loops, breaks, blocks, Permit, granted, no_semaphore, waiting, filter, mem,
  end_tasks, retain_unfinished, spawn, acquire, on_arrival, with_permit, accept_round, accept_loop,
}

length-filter-le : (keep : ℕ → Bool) (l : List ℕ) → length (filter keep l) ≤ length l
unfolding filter
length-filter-le keep [] = omega arith
length-filter-le keep (t ∷ l) = let rest = length-filter-le keep l in ground (arith, rest)

mem-filter :
    (keep : ℕ → Bool) (t : ℕ) (l : List ℕ)
    → mem t l ≡ true
    → keep t ≡ true
    → mem t (filter keep l) ≡ true
unfolding filter mem
mem-filter keep t [] is kept = is
mem-filter keep t (u ∷ l) is kept =
    let rest = mem-filter keep t l in
    elim (Bool-cases (t == u)) [
      | inl same ↦
          let same' : t ≡ u = ground (arith, same) in
          ground (arith, same, same', ap keep same', kept)
      | inr other ↦
          let rest' = rest (ground (arith, is, other)) kept in ground (arith, rest', other)
    ]

filter-mem : (keep : ℕ → Bool) (t : ℕ) (l : List ℕ) → mem t (filter keep l) ≡ true → mem t l ≡ true
unfolding filter mem
filter-mem keep t [] is = is
filter-mem keep t (u ∷ l) is = let rest = filter-mem keep t l in ground (arith, rest)

mem-append-left : (t : ℕ) (l m : List ℕ) → mem t l ≡ true → mem t (l ++ m) ≡ true
unfolding mem
mem-append-left t [] m is = ground (arith, is)
mem-append-left t (u ∷ l) m is = let rest = mem-append-left t l m in ground (arith, rest)

mem-append-last : (t : ℕ) (l : List ℕ) → mem t (l ++ t ∷ []) ≡ true
unfolding mem
mem-append-last t [] = ground arith
mem-append-last t (u ∷ l) = let rest = mem-append-last t l in ground (arith, rest)

mem-cons : (t u : ℕ) (l : List ℕ) → mem t (u ∷ l) ≡ true → (t ≡ u) ⊎ (mem t l ≡ true)
unfolding mem
mem-cons t u l is = elim (Bool-cases (t == u)) [
  | inl same ↦ inl (ground (arith, same))
  | inr other ↦ inr (ground (arith, is, other))
]

-- The limit on the running tasks, and that the loop holds the handle of each of them.
pub record IsTidy (max_connections : ℕ) (w : Tasks) : Type 0 where
  pub limited : length w.running ≤ max_connections
  pub held : (t : ℕ) → mem t w.running ≡ true → mem t w.handles ≡ true

module _ (max : ℕ) where
  end_tasks-IsTidy : (lasts : ℕ → Bool) (w : Tasks) → IsTidy max w → IsTidy max (end_tasks lasts w)
  unfolding end_tasks
  end_tasks-IsTidy lasts w tidy = record {
    limited = let shrinks = length-filter-le lasts w.running in omega (arith, tidy.limited);
    held = λ t is. tidy.held t (filter-mem lasts t w.running is);
  }

  retain_unfinished-IsTidy : (w : Tasks) → IsTidy max w → IsTidy max (retain_unfinished w)
  unfolding retain_unfinished
  retain_unfinished-IsTidy w tidy = record {
    limited = tidy.limited;
    held = λ t is. mem-filter (λ u. mem u w.running) t w.handles (tidy.held t is) is;
  }

  spawn-IsTidy : (w : Tasks) → length w.running < max → IsTidy max w → IsTidy max (spawn w)
  unfolding spawn
  spawn-IsTidy w room tidy = record {
    limited = omega arith;
    held = λ t is. elim (mem-cons t w.next w.running is) [
      | inl same ↦ rw same (mem-append-last w.next w.handles)
      | inr older ↦ mem-append-left t w.handles (w.next ∷ []) (tidy.held t older)
    ];
  }

  on_arrival-IsTidy :
      (a : Arrival) (w : Tasks)
      → length w.running < max
      → IsTidy max w
      → IsTidy max (on_arrival a w).1
  unfolding on_arrival
  on_arrival-IsTidy connection w room tidy = spawn-IsTidy w room tidy
  on_arrival-IsTidy (accept_error none) w room tidy = tidy
  on_arrival-IsTidy (accept_error (some signal)) w room tidy = tidy
  on_arrival-IsTidy (changed signal) w room tidy = tidy

  with_permit-IsTidy :
      (p : Permit) (a : Arrival) (w : Tasks)
      → acquire max w ≡ p
      → IsTidy max w
      → IsTidy max (with_permit p a w).1
  unfolding with_permit acquire
  with_permit-IsTidy granted a w is tidy = on_arrival-IsTidy a w (ground (arith, is)) tidy
  with_permit-IsTidy no_semaphore a w is tidy = tidy
  with_permit-IsTidy waiting a w is tidy = tidy

  accept_round-IsTidy : (r : Round) (w : Tasks) → IsTidy max w → IsTidy max (accept_round max r w).1
  unfolding accept_round
  accept_round-IsTidy r w tidy =
      let asked =
        end_tasks r.lasts_until_permit (retain_unfinished (end_tasks r.lasts_until_retain w)) in
      with_permit-IsTidy (acquire max asked) r.arrival asked refl (
        end_tasks-IsTidy r.lasts_until_permit _
          (retain_unfinished-IsTidy _ (end_tasks-IsTidy r.lasts_until_retain w tidy)))

  -- Where at most `max_connections` connections are served and the handle of each is held before
  -- the loop, the same is true behind it, whatever rounds and endings of connections happened: so
  -- the drain waits for every connection that is still served.
  pub accept_loop-IsTidy :
      (rounds : List Round) (w : Tasks) → IsTidy max w → IsTidy max (accept_loop max rounds w).1
  unfolding accept_loop
  accept_loop-IsTidy [] w tidy = tidy
  accept_loop-IsTidy (r ∷ rounds) w tidy =
      let this = accept_round-IsTidy r w tidy in
      ends (accept_round max r w).0 refl this
        (accept_loop-IsTidy rounds (accept_round max r w).1 this)
    where
      ends :
          (f : Flow)
          → (accept_round max r w).0 ≡ f
          → IsTidy max (accept_round max r w).1
          → IsTidy max (accept_loop max rounds (accept_round max r w).1).1
          → IsTidy max (accept_loop max (r ∷ rounds) w).1
      ends loops is this rest = rw (is, accept_loop) rest
      ends breaks is this rest = rw (is, accept_loop) this
      ends blocks is this rest = rw (is, accept_loop) this

-- With a factory, a bound listener and `max_connections` zero the first round leaves the loop:
-- `run` is over at once, and accepts no connection.
pub run_unlimited :
    (outside : Outside) (v : Server outside) (factory : outside.Factory) (r : Round)
    (rounds : List Round) (ends_at : ℕ → ℕ)
    → v.protocol_command_handler_factory ≡ some factory
    → v.max_connections ≡ 0
    → run outside v (ok tt) (r ∷ rounds) ends_at ≡ drained [] 0
unfolding run accept_loop accept_round acquire with_permit end_tasks retain_unfinished drain
    drain_loop filter
run_unlimited outside v factory r rounds ends_at registered unlimited = ground arith
