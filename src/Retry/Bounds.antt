-- ===== src/Retry/Bounds.antt =====
-- How often `retry_transient` calls, and when it stops.
use wordsworth.Prelude.{
  ℕ, zero, suc, ◌+◌, ◌-◌, ◌≤◌, ◌<◌, max, ◌≡◌, refl, Bool, true, false, not, ◌==◌, nat_eq, arith, ok,
  err, ◌*◌, ◌^◌, ◌++◌, some, [], ◌∷◌, Outcome, Outcome-cases, Bool-cases, ◌⊎◌, inl, inr, String,
  sym, nat_beq_iff, ap, subst,
}
use wordsworth.World.{World, Db, Exc}
use wordsworth.Retry.{is_transient, retry_from, retry_transient}

-- An outcome that a retry cannot help: a result, or an error that is not transient.
abbrev pub is_settled : {A : Type 0} → Outcome Exc A → Bool
is_settled (ok a) = true
is_settled (err e) = not (is_transient e)

-- A call that counts as one.
abbrev pub CountsOnce : {A : Type 0} → Db A → Type 0
CountsOnce fn = (w : World) → (fn w).1.calls ≡ suc w.calls

module _ {A : Type 0} (fn : Db A) (attempts delay : ℕ) (what : String) where
  -- The world in which the call after attempt `i` is made: that attempt failed, and the retry was
  -- logged and slept for.
  abbrev pub waited : ℕ → World → World
  waited i w =
      let v = (fn w).1 in
      record v {
        retries =
            v.retries
            ++ record {
              what = what;
              attempt = i + 1;
              attempts = attempts;
              delay = some (delay * 2 ^ i);
            }
              ∷ [];
        slept = v.slept ++ delay * 2 ^ i ∷ [];
      }

  -- The world in which the `k`-th call after that of attempt `i` is made.
  unfoldable pub call_world : ℕ → ℕ → World → World
  call_world i zero w = w
  call_world i (suc k) w = call_world (suc i) k (waited i w)

  -- The first `k` calls failed with errors that are transient.
  unfoldable pub AllOpen : ℕ → ℕ → World → Type 0
  AllOpen i zero w = Unit {0}
  AllOpen i (suc k) w = (is_settled (fn w).0 ≡ false) × AllOpen (suc i) k (waited i w)

  -- What `n` rounds from attempt `i` on come to: the calls up to that of number `last` are made, each
  -- in the world that the one before it left, and the last one's outcome is returned.
  pub record Settles (i n : ℕ) (w : World) (r : Outcome Exc A × World) : Type 0 where
    pub called : w.calls < r.1.calls
    pub bounded : r.1.calls ≤ w.calls + n
    pub settled : (is_settled r.0 ≡ true) ⊎ (r.1.calls ≡ w.calls + n)
    pub last : ℕ
    pub made : r.1.calls ≡ w.calls + suc last
    pub open_before : AllOpen i last w
    pub outcome_of : r.0 ≡ (fn (call_world i last w)).0

open_error :
    {A : Type 0} (r : Outcome Exc A)
    → is_settled r ≡ false
    → (e : Exc) × (r ≡ err e) × (is_transient e ≡ true)
open_error (ok a) s = cc
open_error (err e) s = (e, refl, ground arith)

Settles-next :
    {A : Type 0} (fn : Db A) (attempts delay : ℕ) (what : String) (i n : ℕ) (w : World)
    (r : Outcome Exc A × World)
    → (fn w).1.calls ≡ suc w.calls
    → is_settled (fn w).0 ≡ false
    → Settles fn attempts delay what (suc i) n (waited fn attempts delay what i w) r
    → Settles fn attempts delay what i (suc n) w r
unfolding call_world AllOpen
Settles-next fn attempts delay what i n w r e not_yet s = record {
  called = omega (arith, s.called);
  bounded = omega (arith, s.bounded);
  settled = later s.settled;
  last = suc s.last;
  made = omega (arith, s.made);
  open_before = (not_yet, s.open_before);
  outcome_of = s.outcome_of;
}
  where
    later :
        (is_settled r.0 ≡ true) ⊎ (r.1.calls ≡ (fn w).1.calls + n)
        → (is_settled r.0 ≡ true) ⊎ (r.1.calls ≡ w.calls + suc n)
    later (inl p) = inl p
    later (inr p) = inr (omega arith)

module _ {A : Type 0} (fn : Db A) (once : CountsOnce fn) (attempts delay : ℕ) (what : String) where
  -- A round that returns, raises what cannot be helped, or is the last one.
  stops :
      (left i : ℕ) (w : World)
      → (is_settled (fn w).0 ≡ true) ⊎ ((i ≡ attempts - 1) × (left ≡ 0))
      → Settles fn attempts delay what i
          (suc left)
          w
          (retry_from fn attempts delay what (suc left) i w)
  unfolding retry_from call_world AllOpen
  stops left i w why = elim (Outcome-cases (fn w).0) [
    | inl (a, done) ↦ rw done (record {
      called = omega (arith, once w);
      bounded = omega (arith, once w);
      settled = inl refl;
      last = 0;
      made = omega (arith, once w);
      open_before = tt;
      outcome_of = sym done;
    })
    | inr (e, failed) ↦ elim (Bool-cases (is_transient e)) [
      | inr permanent ↦
          rw (failed, permanent)
            (record {
              called = omega (arith, once w);
              bounded = omega (arith, once w);
              settled = inl (rw permanent);
              last = 0;
              made = omega (arith, once w);
              open_before = tt;
              outcome_of = sym failed;
            })
      | inl transient ↦
          let (last, none_left) = last_round e failed transient why in
          rw (failed, transient, (nat_beq_iff i (attempts - 1)).1 last, none_left)
            (record {
              called = omega (arith, once w);
              bounded = omega (arith, once w);
              settled = inr (omega (arith, once w));
              last = 0;
              made = omega (arith, once w);
              open_before = tt;
              outcome_of = sym failed;
            })
    ]
  ]
    where
      last_round :
          (e : Exc)
          → (fn w).0 ≡ err e
          → is_transient e ≡ true
          → (is_settled (fn w).0 ≡ true) ⊎ ((i ≡ attempts - 1) × (left ≡ 0))
          → (i ≡ attempts - 1) × (left ≡ 0)
      last_round e failed transient (inl s) =
          absurd (cc (transient, s, ap (λ (r : Outcome Exc A). is_settled r) failed))
      last_round e failed transient (inr l) = l

  retry_from-Settles :
      (left i : ℕ) (w : World)
      → attempts ≡ i + suc left
      → Settles fn attempts delay what i
          (suc left)
          w
          (retry_from fn attempts delay what (suc left) i w)
  unfolding retry_from
  retry_from-Settles zero i w sum = stops zero i w (inr (omega arith, refl))
  retry_from-Settles (suc left) i w sum = elim (Bool-cases (is_settled (fn w).0)) [
    | inl settled ↦ stops (suc left) i w (inl settled)
    | inr open_yet ↦
        let (e, failed, transient) = open_error (fn w).0 open_yet in
        let more : (i == attempts - 1) ≡ false = ground arith in
        let later = retry_from-Settles left (suc i) in
        rw (failed, transient, more)
          (Settles-next fn attempts delay what i (suc left) w _ (once w) open_yet
            (later _ (omega arith)))
  ]

module _ {A : Type 0} (fn : Db A) (attempts delay : ℕ) (what : String) where
  -- Of a call that counts as one, `retry_transient` makes at least one and at most
  -- `max(1, attempts)`, each after the first in the world that the call before it, the log line and
  -- the sleep left. All but the last failed with transient errors, and what the last returns or
  -- raises is what `retry_transient` does; it stops short of the last attempt only with a result or
  -- with an error that is not transient.
  pub retry_transient-Settles :
      CountsOnce fn
      → (w : World)
      → Settles fn
          (max 1 attempts)
          delay
          what
          0
          (max 1 attempts)
          w
          (retry_transient fn attempts delay what w)
  unfolding retry_transient
  retry_transient-Settles once w =
      let e : max 1 attempts ≡ suc (max 1 attempts - 1) = omega arith in
      subst
        (λ n.
          Settles fn (max 1 attempts) delay what 0 n w
            (retry_from fn (max 1 attempts) delay what n 0 w))
        (sym e)
        (retry_from-Settles fn once (max 1 attempts) delay what (max 1 attempts - 1) 0 w
          (omega arith))
