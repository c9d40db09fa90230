-- ===== src/Audit/Records.antt =====
-- What a record that is appended to the trail changes, for readers of the trail.
use wordsworth.Prelude.{
  ℕ, suc, String, ◌≡◌, refl, Option, some, List, [], ◌∷◌, ◌++◌, ◌==◌, nat_eq, arith, latest-append,
  ok, if◌then◌else◌, Bool-cases, inl, inr, sym, ap, ◌∙◌, nat_beq_iff,
}
use wordsworth.Json.{Fields}
use wordsworth.States.{State}
use wordsworth.World.{World, AuditRecord}
use wordsworth.Audit.{Host, append, state_in, current_state}

pub state_in-append :
    (d : ℕ) (trail : List AuditRecord) (r : AuditRecord)
    → state_in d (trail ++ r ∷ [])
      ≡ (if r.document_id == d then some r.to_state else state_in d trail)
unfolding state_in
state_in-append d trail r =
    ground (arith, latest-append (λ (s : AuditRecord). s.document_id == d) trail r)

module _ (h : Host) (d : ℕ) (frm : Option State) (to : State) (step : String) (p : Fields) where
  -- Appending always succeeds, and adds one record that names its document, states, step and payload.
  pub append_lem :
      (w : World)
      → (r : AuditRecord) × (append h d frm to step p w ≡ (
        ok r,
        record w { trail = w.trail ++ r ∷ []; next_seq = suc w.next_seq; reads = suc w.reads },
      ))
        × (r.document_id ≡ d)
        × (r.from_state ≡ frm)
        × (r.to_state ≡ to)
        × (r.step ≡ step)
        × (r.payload ≡ p)
        × (r.seq ≡ w.next_seq)
  unfolding append
  append_lem w = (_, refl, refl, refl, refl, refl, refl, refl)

  pub current_state-append :
      (w : World) (e : ℕ)
      → current_state e (append h d frm to step p w).1
        ≡ (if d == e then some to else current_state e w)
  unfolding append current_state
  current_state-append w e = state_in-append e w.trail _

-- A record with `from == to` moves no document.
pub current_state-event :
    (h : Host) (d : ℕ) (s : State) (step : String) (p : Fields) (w : World) (e : ℕ)
    → current_state d w ≡ some s
    → current_state e (append h d (some s) s step p w).1 ≡ current_state e w
current_state-event h d s step p w e here =
    current_state-append h d (some s) s step p w e ∙ elim (Bool-cases (d == e)) [
      | inl same ↦
          let k : d ≡ e = (nat_beq_iff d e).0 same in
          rw same (sym here ∙ ap (λ x. current_state x w) k)
      | inr other ↦ rw other refl
    ]
