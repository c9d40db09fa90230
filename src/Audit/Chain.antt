-- ===== src/Audit/Chain.antt =====
-- `append` keeps the chain that `verify_chain` walks.
use Prim.Native.String.{◌++◌ as append_string, count}
use wordsworth.Prelude.{
  ℕ, String, ◌≡◌, ◌≢◌, refl, true, Option, none, some, List, [], ◌∷◌, ◌++◌, ◌==◌, string_eq, arith,
  latest, if◌then◌else◌, eq_iff, ap, sym, ◌∙◌,
}
use wordsworth.Json.{Fields}
use wordsworth.States.{State}
use wordsworth.World.{World, AuditRecord}
use wordsworth.Audit.{
  Host, append, compute_hash, content_of, genesis_hash, verify_from, verify_chain,
}

-- A sha256 hex digest has 64 characters.
abbrev pub IsDigest : Host → Type 0
IsDigest h = (s : String) → count (h.sha256 s) ≡ 64

-- The hash that a chain beginning after `prev` ends with.
abbrev pub last_hash : String → List AuditRecord → String
last_hash prev [] = prev
last_hash prev (r ∷ rest) = last_hash r.hash rest

module _ (h : Host) where
  abbrev pub IsVerified : String → List AuditRecord → Type 0
  IsVerified prev trail = verify_from h prev trail ≡ (true, none)

  -- What one verified record says.
  pub IsVerified-cons :
      (prev : String) (r : AuditRecord) (rest : List AuditRecord)
      → IsVerified prev (r ∷ rest)
      → (r.prev_hash ≡ prev)
        × (r.hash ≡ compute_hash h prev (content_of h r))
        × IsVerified r.hash rest
  unfolding verify_from
  IsVerified-cons prev r rest v =
      ground (
        arith,
        eq_iff r.prev_hash prev,
        eq_iff (compute_hash h r.prev_hash (content_of h r)) r.hash,
      )

  pub verify_from-append :
      (prev : String) (trail : List AuditRecord) (r : AuditRecord)
      → IsVerified prev trail
      → verify_from h prev (trail ++ r ∷ []) ≡ verify_from h (last_hash prev trail) (r ∷ [])
  unfolding verify_from
  verify_from-append prev [] r v = refl
  verify_from-append prev (x ∷ trail) r v = ground (arith, verify_from-append x.hash trail r)

  hash-ne-empty :
      IsDigest h
      → (r : AuditRecord) → r.hash ≡ compute_hash h r.prev_hash (content_of h r)
      → r.hash ≢ ""
  unfolding compute_hash
  hash-ne-empty d r e empty =
      let long = d (append_string r.prev_hash (content_of h r)) in
      absurd (omega (arith, ap count (sym e ∙ empty), long))

  -- The hash that the next record chains onto, with `prev` for an empty trail.
  abbrev tail_from : String → List AuditRecord → String
  tail_from prev trail = elim (latest (λ _. true) trail) [
    | none ↦ prev
    | some r ↦ if r.hash == "" then genesis_hash else r.hash
  ]

  tail_from-last :
      IsDigest h
      → (prev : String) (trail : List AuditRecord) → IsVerified prev trail
      → tail_from prev trail ≡ last_hash prev trail
  unfolding latest
  tail_from-last d prev [] v = refl
  tail_from-last d prev (r ∷ rest) v =
      let (before, here, later) = IsVerified-cons prev r rest v in
      ground (
        arith,
        tail_from-last d r.hash rest later,
        hash-ne-empty d r (here ∙ ap (λ s. compute_hash h s (content_of h r)) (sym before)),
        eq_iff r.hash "",
      )

  verify_from-one :
      (p : String) (r : AuditRecord)
      → r.prev_hash ≡ p
      → r.hash ≡ compute_hash h r.prev_hash (content_of h r)
      → verify_from h p (r ∷ []) ≡ (true, none)
  unfolding verify_from
  verify_from-one p r e f =
      ground
        (arith, eq_iff r.prev_hash p, eq_iff (compute_hash h r.prev_hash (content_of h r)) r.hash)

  -- A trail that verifies still verifies after `append`, whatever the record says, where sha256
  -- digests have 64 characters.
  pub verify_chain-append :
      IsDigest h
      → (d : ℕ) (frm : Option State) (to : State) (step : String) (p : Fields) (w : World)
      → verify_chain h w ≡ (true, none)
      → verify_chain h (append h d frm to step p w).1 ≡ (true, none)
  unfolding verify_chain append
  verify_chain-append g d frm to step p w v =
      verify_from-append genesis_hash w.trail _ v
      ∙ verify_from-one (last_hash genesis_hash w.trail) _ (tail_from-last g genesis_hash w.trail v)
          refl
