-- ===== src/Server/Draining/Longest.antt =====
-- Which connections the drain of src/server.rs waits for: the `while` loop at the end of `run`.
use wagonet.Prelude.{ℕ, ◌≤◌, ◌<◌, ◌≡◌, refl, ap, List, [], ◌∷◌, ◌++◌, arith, ◌⊎◌, inl, inr}
use native.Mathlib.Decide.{dec_le}
use wagonet.Server.{Tasks, drain, drain_loop}
use wagonet.Server.Draining.{later, drain_loop_over, drain_loop_hangs, drain_loop_ends}

module _ (drain_timeout : ℕ) (ends_at : ℕ → ℕ) where
  -- Connections that a drain can wait for one after the other: the timeout is not zero, each ends
  -- before it, and the last one at it at the latest.
  abbrev pub InTime : List ℕ → Type 0
  InTime [] = Unit {0}
  InTime (t ∷ []) = (0 < drain_timeout) × (ends_at t ≤ drain_timeout)
  InTime (t ∷ u ∷ us) = (ends_at t < drain_timeout) × InTime (u ∷ us)

  -- The same from a later moment on, as the loop goes through them.
  abbrev InTimeFrom : ℕ → List ℕ → Type 0
  InTimeFrom elapsed [] = Unit {0}
  InTimeFrom elapsed (t ∷ ts) =
      (elapsed < drain_timeout)
      × (ends_at t ≤ drain_timeout)
      × InTimeFrom (later drain_timeout ends_at elapsed t ts) ts

  later_lt :
      (elapsed t : ℕ) (ts : List ℕ)
      → elapsed < drain_timeout
      → ends_at t < drain_timeout
      → later drain_timeout ends_at elapsed t ts < drain_timeout
  unfolding later
  later_lt elapsed t ts room ends = ground arith

  InTimeFrom-InTime : (elapsed : ℕ) (l : List ℕ) → InTimeFrom elapsed l → InTime l
  InTimeFrom-InTime elapsed [] h = tt
  InTimeFrom-InTime elapsed (t ∷ []) (room, ends, _) = (omega arith, ends)
  InTimeFrom-InTime elapsed (t ∷ u ∷ us) (room, ends, more) = (
    unfold later in ground (arith, more.0),
    InTimeFrom-InTime (later drain_timeout ends_at elapsed t (u ∷ us)) (u ∷ us) more,
  )

  InTime-InTimeFrom :
      (elapsed : ℕ) (l : List ℕ) → elapsed < drain_timeout → InTime l → InTimeFrom elapsed l
  InTime-InTimeFrom elapsed [] room h = tt
  InTime-InTimeFrom elapsed (t ∷ []) room (pos, ends) = (room, ends, tt)
  InTime-InTimeFrom elapsed (t ∷ u ∷ us) room (ends, more) = (
    room,
    omega arith,
    InTime-InTimeFrom (later drain_timeout ends_at elapsed t (u ∷ us)) (u ∷ us)
        (later_lt elapsed t (u ∷ us) room ends) more,
  )

  InTime-pos : (t : ℕ) (l : List ℕ) → InTime (t ∷ l) → 0 < drain_timeout
  InTime-pos t [] h = h.0
  InTime-pos t (u ∷ us) h = omega arith

  InTime-start : (t : ℕ) (l : List ℕ) → InTime (t ∷ l) → InTimeFrom 0 (t ∷ l)
  InTime-start t l h = InTime-InTimeFrom 0 (t ∷ l) (InTime-pos t l h) h

-- `aborted` is what is left of `handles` behind the longest run of first ones that fits `P`.
pub record BehindLongest (P : List ℕ → Type 0) (handles aborted : List ℕ) : Type 0 where
  pub finished : List ℕ
  pub splits : handles ≡ finished ++ aborted
  pub waited : P finished
  pub stops :
      (aborted ≡ [])
      ⊎ ((h : ℕ) × (after : List ℕ) × (aborted ≡ h ∷ after) × ¬ P (finished ++ h ∷ []))

module _ (drain_timeout : ℕ) (ends_at : ℕ → ℕ) where
  drain_loop-BehindLongest :
      (elapsed : ℕ) (handles : List ℕ)
      → BehindLongest
          (InTimeFrom drain_timeout ends_at elapsed)
          handles
          (drain_loop drain_timeout ends_at elapsed handles).0
  unfolding later
  drain_loop-BehindLongest elapsed [] =
      unfold drain_loop in record { finished = []; splits = refl; waited = tt; stops = inl refl }
  drain_loop-BehindLongest elapsed (t ∷ ts) = elim (dec_le drain_timeout elapsed) [
    | yes over ↦ rw (drain_loop_over drain_timeout ends_at elapsed t ts over) (record {
      finished = [];
      splits = refl;
      waited = tt;
      stops = inr (t, ts, refl, λ h. omega (arith, h.0));
    })
    | no room ↦ elim (dec_le (ends_at t) drain_timeout) [
      | yes ends ↦
          let next = later drain_timeout ends_at elapsed t ts in
          let rest = drain_loop-BehindLongest next ts in
          rw (drain_loop_ends drain_timeout ends_at elapsed t ts (omega arith) ends) (record {
            finished = t ∷ rest.finished;
            splits = ap (λ l. t ∷ l) rest.splits;
            waited = (omega arith, ends, rest.waited);
            stops = elim rest.stops [
              | inl all ↦ inl all
              | inr (h, after, is, more) ↦ inr (h, after, is, λ fits. more fits.2)
            ];
          })
      | no hangs ↦
          rw (drain_loop_hangs drain_timeout ends_at elapsed t ts (omega arith) (omega arith))
            (record {
              finished = [];
              splits = refl;
              waited = tt;
              stops = inr (t, ts, refl, λ h. omega (arith, h.1));
            })
    ]
  ]

  not_InTime :
      (l : List ℕ) (h : ℕ)
      → ¬ InTimeFrom drain_timeout ends_at 0 (l ++ h ∷ [])
      → ¬ InTime drain_timeout ends_at (l ++ h ∷ [])
  not_InTime [] h late fits = late (InTime-start drain_timeout ends_at h [] fits)
  not_InTime (t ∷ l) h late fits = late (InTime-start drain_timeout ends_at t (l ++ h ∷ []) fits)

  -- The connections that the drain does not abort are the longest run of first ones whose handles
  -- are held that end in time: where the run is not empty, the drain timeout is not zero, and each
  -- connection of the run ends before it, the last one at it at the latest.
  pub drain-BehindLongest :
      (w : Tasks)
      → BehindLongest (InTime drain_timeout ends_at) w.handles (drain drain_timeout ends_at w).0
  unfolding drain
  drain-BehindLongest w =
      let d = drain_loop-BehindLongest 0 w.handles in
      record {
        finished = d.finished;
        splits = d.splits;
        waited = InTimeFrom-InTime drain_timeout ends_at 0 d.finished d.waited;
        stops = elim d.stops [
          | inl all ↦ inl all
          | inr (h, after, is, late) ↦ inr (h, after, is, not_InTime d.finished h late)
        ];
      }
