-- ===== src/Server/Draining.antt =====
-- The drain of the connections at the end of `run` of src/server.rs.
pub mod Longest
use wagonet.Prelude.{
  ℕ, ◌≤◌, ◌<◌, ◌≡◌, refl, ap, List, [], ◌∷◌, ◌++◌, All, arith, leb, if◌then◌else◌, ◌⊎◌, inl, inr,
}
use native.Mathlib.Decide.{dec_le}
use wagonet.Server.{Tasks, drain, drain_loop}

module _ (drain_timeout : ℕ) (ends_at : ℕ → ℕ) where
  -- What a drain that starts on `handles` at `elapsed` comes to.
  record Drained (handles : List ℕ) (r : List ℕ × ℕ) : Type 0 where
    finished : List ℕ
    splits : handles ≡ finished ++ r.0
    in_time : All (λ h. ends_at h ≤ drain_timeout) finished
    bounded : r.1 ≤ drain_timeout
    late : (r.0 ≡ []) ⊎ (r.1 ≡ drain_timeout)

  module _ (elapsed t : ℕ) (ts : List ℕ) where
    pub later : ℕ
    later = if leb (ends_at t) elapsed then elapsed else ends_at t

    pub drain_loop_over :
        drain_timeout ≤ elapsed
        → drain_loop drain_timeout ends_at elapsed (t ∷ ts) ≡ (t ∷ ts, elapsed)
    unfolding drain_loop
    drain_loop_over over = ground arith

    pub drain_loop_hangs :
        elapsed < drain_timeout
        → drain_timeout < ends_at t
        → drain_loop drain_timeout ends_at elapsed (t ∷ ts) ≡ (t ∷ ts, drain_timeout)
    unfolding drain_loop
    drain_loop_hangs room hangs = ground arith

    pub drain_loop_ends :
        elapsed < drain_timeout
        → ends_at t ≤ drain_timeout
        → drain_loop drain_timeout ends_at elapsed (t ∷ ts)
          ≡ drain_loop drain_timeout ends_at later ts
    unfolding drain_loop later
    drain_loop_ends room ends = ground arith

    later_le : elapsed ≤ drain_timeout → ends_at t ≤ drain_timeout → later ≤ drain_timeout
    unfolding later
    later_le h ends = ground arith

  drain_loop-Drained :
      (elapsed : ℕ) (handles : List ℕ)
      → elapsed ≤ drain_timeout
      → Drained handles (drain_loop drain_timeout ends_at elapsed handles)
  drain_loop-Drained elapsed [] h =
      unfold drain_loop in
      record { finished = []; splits = refl; in_time = tt; bounded = h; late = inl refl }
  drain_loop-Drained elapsed (t ∷ ts) h = elim (dec_le drain_timeout elapsed) [
    | yes over ↦ rw (drain_loop_over elapsed t ts over) (record {
      finished = [];
      splits = refl;
      in_time = tt;
      bounded = h;
      late = inr (omega arith);
    })
    | no room ↦ elim (dec_le (ends_at t) drain_timeout) [
      | yes ends ↦
          let rest = drain_loop-Drained (later elapsed t ts) ts (later_le elapsed t ts h ends) in
          rw (drain_loop_ends elapsed t ts (omega arith) ends) (record {
            finished = t ∷ rest.finished;
            splits = ap (λ l. t ∷ l) rest.splits;
            in_time = (ends, rest.in_time);
            bounded = rest.bounded;
            late = rest.late;
          })
      | no hangs ↦ rw (drain_loop_hangs elapsed t ts (omega arith) (omega arith)) (record {
        finished = [];
        splits = refl;
        in_time = tt;
        bounded = omega arith;
        late = inr refl;
      })
    ]
  ]

  -- The drain is over by the drain timeout. It aborts nothing, or it lasts just until the timeout;
  -- and the connections that it does not abort are the first ones whose handles are held, which end
  -- by the timeout.
  pub drain_bounds :
      (w : Tasks)
      → ((drain drain_timeout ends_at w).1 ≤ drain_timeout)
        × (((drain drain_timeout ends_at w).0 ≡ [])
            ⊎ ((drain drain_timeout ends_at w).1 ≡ drain_timeout))
        × ((finished : List ℕ) × (w.handles ≡ finished ++ (drain drain_timeout ends_at w).0)
            × All (λ h. ends_at h ≤ drain_timeout) finished)
  unfolding drain
  drain_bounds w =
      let d = drain_loop-Drained 0 w.handles (omega arith) in
      (d.bounded, d.late, (d.finished, d.splits, d.in_time))
