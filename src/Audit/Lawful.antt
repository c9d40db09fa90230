-- ===== src/Audit/Lawful.antt =====
-- Trails whose records follow the state machine: what `pipeline.transition` and the events that are
-- appended beside it keep.
use wordsworth.Prelude.{
  ℕ, String, ◌≡◌, refl, Bool, true, false, ◌&&◌, ◌||◌, Option, none, some, List, [], ◌∷◌, ◌++◌,
  ◌==◌, nat_eq, option_eq, arith, latest, or_else, if◌then◌else◌, ◌⊎◌, inl, inr, beq_refl,
  Bool-cases, nat_beq_iff, ◌∙◌, subst,
}
use wordsworth.Json.{Fields}
use wordsworth.States.{State, anonymized, indexed, is_allowed, state_eq}
use wordsworth.World.{World, AuditRecord}
use wordsworth.Audit.{Host, append, state_in, current_state, verify_chain}
use wordsworth.Audit.Chain.{IsDigest, verify_chain-append}

-- A record of the document says where it comes from, and goes on by an allowed edge or stays; a
-- record of another document says nothing.
unfoldable pub is_step : ℕ → Option State → AuditRecord → Bool
is_step d prev r =
    if r.document_id == d
    then r.from_state == prev && (prev == some r.to_state || is_allowed prev r.to_state)
    else true

unfoldable pub after : ℕ → Option State → AuditRecord → Option State
after d prev r = if r.document_id == d then some r.to_state else prev

-- The records of one document, from the state `prev` on, follow one another.
unfoldable pub walks : ℕ → Option State → List AuditRecord → Bool
walks d prev [] = true
walks d prev (r ∷ rs) = is_step d prev r && walks d (after d prev r) rs

module _ (d : ℕ) where
  end_state : Option State → List AuditRecord → Option State
  end_state prev [] = prev
  end_state prev (r ∷ rs) = end_state (after d prev r) rs

  &&_assoc : (a b c : Bool) → (a && (b && c)) ≡ ((a && b) && c)
  &&_assoc a b c = ground arith

  walks-append :
      (prev : Option State) (trail : List AuditRecord) (r : AuditRecord)
      → walks d prev (trail ++ r ∷ []) ≡ (walks d prev trail && is_step d (end_state prev trail) r)
  unfolding walks end_state
  walks-append prev [] r = ground arith
  walks-append prev (x ∷ trail) r =
      rw (walks-append (after d prev x) trail r) (&&_assoc (is_step d prev x) _ _)

  end_state-state_in :
      (prev : Option State) (trail : List AuditRecord)
      → end_state prev trail ≡ or_else (state_in d trail) prev
  unfolding end_state state_in latest after
  end_state-state_in prev [] = refl
  end_state-state_in prev (x ∷ trail) = ground (arith, end_state-state_in (after d prev x) trail)

is_step_same :
    (frm : Option State) (to : State) (b : Bool) → frm ≡ some to → (frm == some to || b) ≡ true
is_step_same frm to b e = rw (e, beq_refl to)

is_step_next :
    (prev : Option State) (r : AuditRecord)
    → prev ≡ r.from_state
    → (r.from_state ≡ some r.to_state) ⊎ (is_allowed r.from_state r.to_state ≡ true)
    → is_step r.document_id prev r ≡ true
unfolding is_step
is_step_next prev r at (inl same) =
    rw (
      at,
      beq_refl r.document_id,
      beq_refl r.from_state,
      is_step_same r.from_state r.to_state _ same,
    )
is_step_next prev r at (inr edge) =
    ground
      (arith, at, edge, beq_refl r.from_state, beq_refl r.document_id, beq_refl (some r.to_state))

or_else-none : (o : Option State) → or_else o none ≡ o
or_else-none none = refl
or_else-none (some s) = refl

lawful-append :
    (trail : List AuditRecord) (r : AuditRecord)
    → state_in r.document_id trail ≡ r.from_state
    → (r.from_state ≡ some r.to_state) ⊎ (is_allowed r.from_state r.to_state ≡ true)
    → (e : ℕ) → walks e none trail ≡ true
    → walks e none (trail ++ r ∷ []) ≡ true
lawful-append trail r at edge e law = elim (Bool-cases (r.document_id == e)) [
  | inl same ↦
      let p : r.document_id ≡ e = (nat_beq_iff r.document_id e).0 same in
      rw (walks-append e none trail r, law)
        (subst (λ k. is_step k (end_state k none trail) r ≡ true) p
          (is_step_next (end_state r.document_id none trail) r
            (end_state-state_in r.document_id none trail ∙ (or_else-none _ ∙ at)) edge))
  | inr differ ↦ rw (walks-append e none trail r, law) (unfold is_step in rw differ)
]

-- The chain holds, and every document went by allowed edges.
pub record IsAudited (h : Host) (w : World) : Type 0 where
  pub verified : verify_chain h w ≡ (true, none)
  pub lawful : (d : ℕ) → walks d none w.trail ≡ true

module _ (h : Host) (g : IsDigest h) where
  -- A record from the document's current state, along an allowed edge or staying where it is,
  -- keeps the trail audited.
  pub append-IsAudited :
      (d : ℕ) (frm : Option State) (to : State) (step : String) (p : Fields) (w : World)
      → current_state d w ≡ frm
      → (frm ≡ some to) ⊎ (is_allowed frm to ≡ true)
      → IsAudited h w
      → IsAudited h (append h d frm to step p w).1
  unfolding append current_state is_step
  append-IsAudited d frm to step p w at edge v = record {
    verified = verify_chain-append h g d frm to step p w v.verified;
    lawful = λ e. lawful-append w.trail _ at edge e (v.lawful e);
  }

-- A record of the document that goes to `s`.
unfoldable pub passed : ℕ → State → List AuditRecord → Bool
passed d s [] = false
passed d s (r ∷ rs) = (r.document_id == d && r.to_state == s) || passed d s rs

module _ (d : ℕ) where
  indexed_passed :
      (prev : Option State) (trail : List AuditRecord)
      → walks d prev trail ≡ true
      → end_state d prev trail ≡ some indexed
      → (prev ≡ some indexed) ⊎ (prev ≡ some anonymized) ⊎ (passed d anonymized trail ≡ true)
  unfolding walks end_state passed is_step after is_allowed
  indexed_passed prev [] v e = inl e
  indexed_passed prev (r ∷ trail) v e = ground (arith, indexed_passed (after d prev r) trail)

-- A document that is in the state `indexed` of an audited trail has a record there that took it to
-- `anonymized`.
pub indexed-anonymized :
    (h : Host) (d : ℕ) (w : World)
    → IsAudited h w
    → current_state d w ≡ some indexed
    → passed d anonymized w.trail ≡ true
unfolding current_state
indexed-anonymized h d w v e = ground (
  arith,
  indexed_passed d none w.trail (v.lawful d),
  end_state-state_in d none w.trail,
  or_else-none (state_in d w.trail),
)
