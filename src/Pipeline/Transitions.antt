-- ===== src/Pipeline/Transitions.antt =====
-- What `transition` does on each of its branches.
use wordsworth.Prelude.{
  ℕ, String, ◌≡◌, ◌≢◌, refl, true, false, ◌&&◌, Option, none, some, ◌==◌, nat_eq, option_eq, arith,
  ok, err, inl, inr, beq_refl, option_beq_iff, ◌∙◌, if◌then◌else◌, Bool-cases, ap, ◌>>=◌, pure, ◌↔◌,
}
use wordsworth.Json.{Fields}
use wordsworth.States.{State, is_allowed, state_eq, state_beq_iff}
use wordsworth.World.{World, value_error}
use wordsworth.Audit.{Host, append, current_state}
use wordsworth.Audit.Chain.{IsDigest}
use wordsworth.Audit.Records.{current_state-append}
use wordsworth.Audit.Lawful.{append-IsAudited}
use wordsworth.Audit.Actions.{Audits}
use wordsworth.Pipeline.{transition}

not_self : (s : State) → is_allowed (some s) s ≡ false
unfolding is_allowed
not_self s = ground arith

self_not_allowed : (s : Option State) (to : State) → is_allowed s to ≡ true → (s == some to) ≡ false
self_not_allowed none to e = refl
self_not_allowed (some s) to e = elim (Bool-cases (s == to)) [
  | inl same ↦
      absurd (cc (e, not_self s, ap (λ t. is_allowed (some s) t) ((state_beq_iff s to).0 same)))
  | inr differ ↦ differ
]

module _ (h : Host) (d : ℕ) (to : State) (step : String) (p : Fields) (w : World) where
  pub transition_stays : current_state d w ≡ some to → transition h d to step p w ≡ (ok none, w)
  unfolding transition
  transition_stays e = rw (e, beq_refl to)

  transition_raises :
      current_state d w ≢ some to
      → is_allowed (current_state d w) to ≡ false
      → transition h d to step p w ≡ (err value_error, w)
  unfolding transition
  transition_raises n e = elim (Bool-cases (current_state d w == some to)) [
    | inl same ↦ absurd (n ((option_beq_iff (current_state d w) (some to)).0 same))
    | inr differ ↦ rw (differ, e)
  ]

  -- An allowed move is one record appended, from the state that was current.
  pub transition_moves :
      is_allowed (current_state d w) to ≡ true
      → transition h d to step p w
        ≡ (append h d (current_state d w) to step p >>= λ r. pure (some r)) w
  unfolding transition
  transition_moves e = rw (self_not_allowed (current_state d w) to e, e)

  unmoved : is_allowed (current_state d w) to ≡ false → (transition h d to step p w).1 ≡ w
  unmoved e = elim (Bool-cases (current_state d w == some to)) [
    | inl same ↦ rw (transition_stays ((option_beq_iff (current_state d w) (some to)).0 same))
    | inr differ ↦
        rw (
          transition_raises (λ q. cc (differ, (option_beq_iff (current_state d w) (some to)).1 q))
            e)
  ]

  -- After `transition` its document is in the new state if the edge is allowed; every other
  -- document, and this one if the edge is not allowed, is where it was.
  pub current_state-transition :
      (e : ℕ)
      → current_state e (transition h d to step p w).1
        ≡ (if d == e && is_allowed (current_state d w) to then some to else current_state e w)
  unfolding append
  current_state-transition e = elim (Bool-cases (is_allowed (current_state d w) to)) [
    | inl yes_edge ↦
        rw (transition_moves yes_edge, yes_edge)
          (current_state-append h d (current_state d w) to step p w e ∙ ground arith)
    | inr no_edge ↦ rw (unmoved no_edge, no_edge) (ground arith)
  ]

  -- It raises exactly where the move is neither allowed nor done already, and then nothing changed.
  pub transition-raises_iff :
      ((transition h d to step p w).0 ≡ err value_error)
      ↔ ((current_state d w ≢ some to) × (is_allowed (current_state d w) to ≡ false))
  unfolding transition append
  transition-raises_iff = (
    (λ q. (
      (λ here. absurd (ground (arith, option_beq_iff (current_state d w) (some to)))),
      ground (arith, self_not_allowed (current_state d w) to),
    )),
    (λ q. ap (λ r. r.0) (transition_raises q.0 q.1)),
  )

module _ (h : Host) (g : IsDigest h) where
  pub transition-Audits :
      (d : ℕ) (to : State) (step : String) (p : Fields) → Audits h (transition h d to step p)
  unfolding append
  transition-Audits d to step p = record {
    at = λ w a. elim (Bool-cases (is_allowed (current_state d w) to)) [
      | inl edge ↦
          rw (transition_moves h d to step p w edge)
            (append-IsAudited h g d (current_state d w) to step p w refl (inr edge) a)
      | inr no_edge ↦ rw (unmoved h d to step p w no_edge) a
    ];
  }
