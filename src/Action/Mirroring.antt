-- ===== src/Action/Mirroring.antt =====
-- Two pieces of code that do the same on objects of different types: each step of the one is a step
-- of the other on the object that `view` shows.
use wagonet.Prelude.{◌≡◌, refl, ap, sym, Bool, true, false, if◌then◌else◌}
use wagonet.Errors.{Result, ok, err}
use wagonet.Action.{pure, reads, lift, gets, modify, proceed, ◌>>=◌}

-- Both succeed with the same value, or both fail, with errors that are related.
abbrev pub Corresponds : {E F A : Type 0} → (E → F → Type 0) → Result E A → Result F A → Type 0
Corresponds R (ok a) (ok b) = a ≡ b
Corresponds R (err e) (err f) = R e f
Corresponds R (ok a) (err f) = ⊥
Corresponds R (err e) (ok b) = ⊥

-- With equal errors the results are equal.
module _ {E A : Type 0} where
  pub same_refl : (r : Result E A) → Corresponds (λ e f. e ≡ f) r r
  same_refl (ok a) = refl
  same_refl (err e) = refl

  pub same_eq : (r r' : Result E A) → Corresponds (λ e f. e ≡ f) r r' → r ≡ r'
  same_eq (ok a) (ok b) e = ap (λ x. ok x) e
  same_eq (err x) (err y) e = ap (λ z. err z) e
  same_eq (ok a) (err y) e = absurd e
  same_eq (err x) (ok b) e = absurd e

module _ {E F S T : Type 0} (view : S → T) (R : E → F → Type 0) where
  pub record MirrorsAt {A : Type 0} (x : Result E A × S) (y : Result F A × T) : Type 0 where
    pub result_at : Corresponds R x.0 y.0
    pub object_at : view x.1 ≡ y.1

  pub record Mirrors {A : Type 0} (m : S → Result E A × S) (n : T → Result F A × T) : Type 0 where
    pub same_result : (s : S) → Corresponds R (m s).0 (n (view s)).0
    pub same_object : (s : S) → view (m s).1 ≡ (n (view s)).1

module _ {E F S T : Type 0} {view : S → T} {R : E → F → Type 0} where
  pub lift-Mirrors :
      {A : Type 0} (r : Result E A) (r' : Result F A)
      → Corresponds R r r'
      → Mirrors view R (lift r) (lift r')
  lift-Mirrors r r' same = record { same_result = λ s. same; same_object = λ s. refl }

  pub pure-Mirrors : {A : Type 0} (a : A) → Mirrors view R (pure a) (pure a)
  pure-Mirrors a = record { same_result = λ s. refl; same_object = λ s. refl }

  pub gets-Mirrors :
      {A : Type 0} (g : S → A) (h : T → A)
      → ((s : S) → g s ≡ h (view s))
      → Mirrors view R (gets g) (gets h)
  gets-Mirrors g h same = record { same_result = same; same_object = λ s. refl }

  pub reads-Mirrors :
      {A : Type 0} (g : S → Result E A) (h : T → Result F A)
      → ((s : S) → Corresponds R (g s) (h (view s)))
      → Mirrors view R (reads g) (reads h)
  reads-Mirrors g h same = record { same_result = same; same_object = λ s. refl }

  pub if-MirrorsAt :
      {A : Type 0} (c : Bool) {x x' : Result E A × S} {y y' : Result F A × T}
      → MirrorsAt view R x y
      → MirrorsAt view R x' y'
      → MirrorsAt view R (if c then x else x') (if c then y else y')
  if-MirrorsAt true then_same else_same = then_same
  if-MirrorsAt false then_same else_same = else_same

  pub mirrors_at :
      {A : Type 0} {m : S → Result E A × S} {n : T → Result F A × T}
      → Mirrors view R m n
      → (s : S) → MirrorsAt view R (m s) (n (view s))
  mirrors_at same s = record { result_at = same.same_result s; object_at = same.same_object s }

  module _ {A : Type 0} {m m' : S → Result E A × S} {n n' : T → Result F A × T} where
    pub if-Mirrors :
        (b : S → Bool) (b' : T → Bool)
        → ((s : S) → b s ≡ b' (view s))
        → Mirrors view R m n
        → Mirrors view R m' n'
        → Mirrors view R (λ s. if b s then m s else m' s) (λ t. if b' t then n t else n' t)
    if-Mirrors b b' same then_same else_same = record {
      same_result = λ s.
          rw (sym (same s))
            (if-MirrorsAt (b s) (mirrors_at then_same s) (mirrors_at else_same s)).result_at;
      same_object = λ s.
          rw (sym (same s))
            (if-MirrorsAt (b s) (mirrors_at then_same s) (mirrors_at else_same s)).object_at;
    }

  pub modify-Mirrors :
      (g : S → S) (h : T → T)
      → ((s : S) → view (g s) ≡ h (view s))
      → Mirrors view R (modify g) (modify h)
  modify-Mirrors g h same = record { same_result = λ s. refl; same_object = same }

  module _ {A B : Type 0} where
    pub proceed-Mirrors :
        (g : A → S → Result E B × S) (h : A → T → Result F B × T)
        → ((a : A) → Mirrors view R (g a) (h a))
        → (r : Result E A) (r' : Result F A) (s : S) (t : T) → Corresponds R r r'
        → view s ≡ t
        → Corresponds R (proceed g r s).0 (proceed h r' t).0
          × (view (proceed g r s).1 ≡ (proceed h r' t).1)
    proceed-Mirrors g h same (ok a) (ok b) s t e here =
        rw (sym e, sym here) ((same a).same_result s, (same a).same_object s)
    proceed-Mirrors g h same (err x) (err y) s t e here = (e, here)
    proceed-Mirrors g h same (ok a) (err y) s t e here = absurd e
    proceed-Mirrors g h same (err x) (ok b) s t e here = absurd e

    pub >>=-Mirrors :
        {m : S → Result E A × S} {n : T → Result F A × T} {g : A → S → Result E B × S}
        {h : A → T → Result F B × T}
        → Mirrors view R m n
        → ((a : A) → Mirrors view R (g a) (h a))
        → Mirrors view R (m >>= g) (n >>= h)
    >>=-Mirrors {m} {n} {g} {h} first next = record {
      same_result = λ s.
          (proceed-Mirrors g h next (m s).0 (n (view s)).0 (m s).1 (n (view s)).1
            (first.same_result s) (first.same_object s)).0;
      same_object = λ s.
          (proceed-Mirrors g h next (m s).0 (n (view s)).0 (m s).1 (n (view s)).1
            (first.same_result s) (first.same_object s)).1;
    }

-- With equal errors the one is the other, seen through `view`.
pub Mirrors-eq :
    {E S T A : Type 0} {view : S → T} {m : S → Result E A × S} {n : T → Result E A × T}
    → Mirrors view (λ e f. e ≡ f) m n
    → (s : S) → n (view s) ≡ ((m s).0, view (m s).1)
Mirrors-eq {view} {m} {n} same s =
    λ i. (sym (same_eq (m s).0 (n (view s)).0 (same.same_result s)) i, sym (same.same_object s) i)
