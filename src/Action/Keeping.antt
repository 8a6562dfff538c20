-- ===== src/Action/Keeping.antt =====
-- What an action makes of the object, whatever its result: from `P` before it to `Q` behind it.
use wagonet.Errors.{Result, ok, err}
use wagonet.Action.{proceed, ◌>>=◌}

module _ {E S A : Type 0} where
  pub record Leads (P Q : S → Type 0) (m : S → Result E A × S) : Type 0 where
    pub leads : (s : S) → P s → Q (m s).1

  abbrev pub Keeps : (S → Type 0) → (S → Result E A × S) → Type 0
  Keeps P m = Leads P P m

module _ {E S A B : Type 0} {Q R : S → Type 0} where
  proceed-Leads :
      (g : A → S → Result E B × S) (r : Result E A) (s : S)
      → ((t : S) → Q t → R t)
      → ((a : A) → Leads Q R (g a))
      → Q s
      → R (proceed g r s).1
  proceed-Leads g (ok a) s weaker next q = (next a).leads s q
  proceed-Leads g (err e) s weaker next q = weaker s q

module _ {E S A B : Type 0} {P Q R : S → Type 0} {m : S → Result E A × S}
    {g : A → S → Result E B × S} where
  -- A first action that fails ends the sequence, and leaves what `Q` says.
  pub >>=-Leads :
      Leads P Q m → ((t : S) → Q t → R t) → ((a : A) → Leads Q R (g a)) → Leads P R (m >>= g)
  >>=-Leads first weaker next = record {
    leads = λ s p. proceed-Leads g (m s).0 (m s).1 weaker next (first.leads s p);
  }

module _ {E S A B : Type 0} {P : S → Type 0} {m : S → Result E A × S}
    {g : A → S → Result E B × S} where
  pub >>=-Keeps : Keeps P m → ((a : A) → Keeps P (g a)) → Keeps P (m >>= g)
  >>=-Keeps first next = >>=-Leads first (λ t p. p) next
