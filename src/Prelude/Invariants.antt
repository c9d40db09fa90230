-- ===== src/Prelude/Invariants.antt =====
-- Invariants of actions, with one rule for each way to build an action.
use mathlib.Core.Path.{◌≡◌, ap, sym, subst, ◌∙◌}
use mathlib.Core.Bool.{Bool, true, false}
use wordsworth.Prelude.Tests.{if◌then◌else◌}
use wordsworth.Prelude.Monad.{
  Outcome, ok, err, Exec, pure, raise, gets, modify, require, continue, ◌>>=◌,
}

-- `m` keeps `P`, whether it returns or raises.
pub record Keeps {E S A : Type 0} (P : S → Type 0) (m : Exec E S A) : Type 0 where
  pub at : (s : S) → P s → P (m s).1

module _ {E S : Type 0} {P : S → Type 0} where
  pub Keeps-pure : {A : Type 0} (a : A) → Keeps {E = E} P (pure a)
  Keeps-pure a = record { at = λ s h. h }

  pub Keeps-raise : {A : Type 0} (e : E) → Keeps {A = A} P (raise e)
  Keeps-raise e = record { at = λ s h. h }

  pub Keeps-gets : {A : Type 0} (f : S → A) → Keeps {E = E} P (gets f)
  Keeps-gets f = record { at = λ s h. h }

  pub Keeps-modify : (f : S → S) → ((s : S) → P s → P (f s)) → Keeps {E = E} P (modify f)
  Keeps-modify f k = record { at = k }

  pub Keeps-require : (b : Bool) (e : E) → Keeps P (require b e)
  Keeps-require true e = record { at = λ s h. h }
  Keeps-require false e = record { at = λ s h. h }

  pub Keeps-if :
      {A : Type 0} (b : Bool) (m n : Exec E S A)
      → Keeps P m
      → Keeps P n
      → Keeps P (if b then m else n)
  Keeps-if true m n km kn = km
  Keeps-if false m n km kn = kn

  continue_at :
      {A B : Type 0} (r : Outcome E A) (f : A → Exec E S B) (s : S)
      → ((a : A) → Keeps P (f a))
      → P s
      → P (continue r f s).1
  continue_at (ok a) f s kf h = (kf a).at s h
  continue_at (err e) f s kf h = h

  pub Keeps-bind :
      {A B : Type 0} (m : Exec E S A) (f : A → Exec E S B)
      → Keeps P m
      → ((a : A) → Keeps P (f a))
      → Keeps P (m >>= f)
  Keeps-bind m f km kf = record { at = λ s h. continue_at (m s).0 f (m s).1 kf (km.at s h) }

pub ruleset keeps_rules = (Keeps-pure, Keeps-raise, Keeps-gets, Keeps-require, Keeps-if, Keeps-bind)

-- `m` leads from `P` to `Q`, whether it returns or raises.
pub record Leads {E S A : Type 0} (P Q : S → Type 0) (m : Exec E S A) : Type 0 where
  pub leads : (s : S) → P s → Q (m s).1

module _ {E S : Type 0} {P Q : S → Type 0} where
  -- What keeps the weaker predicate leads to it.
  pub Leads-Keeps : {A : Type 0} (m : Exec E S A) → ((s : S) → P s → Q s) → Keeps Q m → Leads P Q m
  Leads-Keeps m weaker k = record { leads = λ s h. k.at s (weaker s h) }

  leads_from :
      {A B : Type 0} (r : Outcome E A) (f : A → Exec E S B) (s : S)
      → ((s : S) → P s → Q s)
      → ((a : A) → Leads P Q (f a))
      → P s
      → Q (continue r f s).1
  leads_from (ok a) f s weaker kf h = (kf a).leads s h
  leads_from (err e) f s weaker kf h = weaker s h

  pub Leads-bind :
      {A B : Type 0} (m : Exec E S A) (f : A → Exec E S B)
      → ((s : S) → P s → Q s)
      → Keeps P m
      → ((a : A) → Leads P Q (f a))
      → Leads P Q (m >>= f)
  Leads-bind m f weaker km kf = record {
    leads = λ s h. leads_from (m s).0 f (m s).1 weaker kf (km.at s h);
  }

-- From `P`, `m` returns, and what it returns and leaves has `Q`.
pub record Runs {E S A : Type 0} (P : S → Type 0) (m : Exec E S A) (Q : A → S → Type 0)
    : Type 0 where
  pub runs : (s : S) → P s → (a : A) × (t : S) × (m s ≡ (ok a, t)) × Q a t

module _ {E S A : Type 0} {P : S → Type 0} {Q : A → S → Type 0} where
  -- The outcome and the state after it, apart.
  pub Runs-result :
      (m : Exec E S A) (s : S) → Runs P m Q → P s → (a : A) × ((m s).0 ≡ ok a) × Q a (m s).1
  Runs-result m s r h =
      let (a, t, e, q) = r.runs s h in (a, ap (λ x. x.0) e, subst (Q a) (sym (ap (λ x. x.1) e)) q)

  -- An action runs if at each state it returns, and what it returns and leaves is right.
  pub Runs-outcome :
      (m : Exec E S A) → ((s : S) → P s → (a : A) × ((m s).0 ≡ ok a) × Q a (m s).1) → Runs P m Q
  Runs-outcome m f = record {
    runs = λ s h. let (a, e, q) = f s h in (a, (m s).1, ap (λ o. (o, (m s).1)) e, q);
  }

  -- What does the same from each of the states runs the same.
  pub Runs-same : (m n : Exec E S A) → ((s : S) → P s → m s ≡ n s) → Runs P n Q → Runs P m Q
  Runs-same m n same r = record {
    runs = λ s h. let (a, t, e, q) = r.runs s h in (a, t, same s h ∙ e, q);
  }

  pub Runs-bind :
      {B : Type 0} {R : B → S → Type 0} (m : Exec E S B) (f : B → Exec E S A)
      → Runs P m R
      → ((b : B) → Runs (R b) (f b) Q)
      → Runs P (m >>= f) Q
  Runs-bind m f rm rf = record {
    runs = λ s h.
        let (b, t, e, r) = rm.runs s h in
        let (a, u, k, q) = (rf b).runs t r in (a, u, ap (λ x. continue x.0 f x.1) e ∙ k, q);
  }

  -- As `Runs-bind`, where it is known what the first action returns.
  pub Runs-known :
      {B : Type 0} {R : S → Type 0} (m : Exec E S B) (f : B → Exec E S A) (b : B)
      → Runs P m (λ c s. R s × (c ≡ b))
      → Runs R (f b) Q
      → Runs P (m >>= f) Q
  Runs-known m f b rm rf = record {
    runs = λ s h.
        let (c, t, e, (r, same)) = rm.runs s h in
        let (a, u, k, q) = rf.runs t r in
        (a, u, ap (λ x. continue x.0 f x.1) (e ∙ ap (λ c. (ok c, t)) same) ∙ k, q);
  }

-- `m` returns from the state, and what it returns and leaves has `Q`.
pub record Returns {E S A : Type 0} (m : Exec E S A) (s : S) (Q : A → S → Type 0) : Type 0 where
  pub value : A
  pub returned : (m s).0 ≡ ok value
  pub holds : Q value (m s).1

module _ {E S A B : Type 0} {Q : A → S → Type 0} {R : B → S → Type 0} where
  pub Returns-bind :
      (m : Exec E S B) (f : B → Exec E S A) (s : S)
      → Returns m s R
      → ((b : B) → R b (m s).1 → Returns (f b) (m s).1 Q)
      → Returns (m >>= f) s Q
  Returns-bind m f s x g =
      let y = g x.value x.holds in
      record {
        value = y.value;
        returned = ap (λ o. (continue o f (m s).1).0) x.returned ∙ y.returned;
        holds = subst (λ o. Q y.value (continue o f (m s).1).1) (sym x.returned) y.holds;
      }

module _ {E S A : Type 0} {Q : A → S → Type 0} where
  -- What does what another action does, from the state of its own, returns the same.
  pub Returns-same : (m n : Exec E S A) (s t : S) → m s ≡ n t → Returns n t Q → Returns m s Q
  Returns-same m n s t e x = record {
    value = x.value;
    returned = ap (λ r. r.0) e ∙ x.returned;
    holds = subst (λ r. Q x.value r.1) (sym e) x.holds;
  }
