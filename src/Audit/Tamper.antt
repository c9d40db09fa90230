-- ===== src/Audit/Tamper.antt =====
-- What a verified chain says of its records: two chains that end in one hash hold one content.
use Prim.Native.String.{◌++◌ as append_string, count}
use text.Mathlib.TextLemmas.{append_inj}
use wordsworth.Prelude.{
  String, ◌≡◌, ◌≢◌, refl, true, none, List, [], ◌∷◌, ◌==◌, string_eq, arith, eq_iff, ap, sym, ◌∙◌,
  map, length, ◌⊎◌, inl, inr, Bool-cases,
}
use wordsworth.World.{World, AuditRecord}
use wordsworth.Audit.{Host, compute_hash, content_of, verify_chain, genesis_hash}
use wordsworth.Audit.Chain.{IsDigest, IsVerified, IsVerified-cons, last_hash}

module _ (h : Host) where
  -- The text that the hash of a record is computed from.
  abbrev pub hashed_text : AuditRecord → String
  hashed_text r = append_string r.prev_hash (content_of h r)

  -- Two records whose hashed texts differ and have one sha256.
  abbrev pub Collide : String → String → Type 0
  Collide a b = (a ≢ b) × (h.sha256 a ≡ h.sha256 b)

  -- At some place the two trails hold records that collide.
  unfoldable pub Collision : List AuditRecord → List AuditRecord → Type 0
  Collision [] ys = ⊥
  Collision (x ∷ xs) [] = ⊥
  Collision (x ∷ xs) (y ∷ ys) = Collide (hashed_text x) (hashed_text y) ⊎ Collision xs ys

  same_or_collision : (a b : String) → h.sha256 a ≡ h.sha256 b → (a ≡ b) ⊎ Collide a b
  same_or_collision a b e = elim (Bool-cases (a == b)) [
    | inl same ↦ inl ((eq_iff a b).0 same)
    | inr differ ↦ inr ((λ p. ground (arith, eq_iff a b)), e)
  ]

  compute_hash_inj :
      (p q a b : String)
      → count p ≡ count q
      → compute_hash h p a ≡ compute_hash h q b
      → ((p ≡ q) × (a ≡ b)) ⊎ Collide (append_string p a) (append_string q b)
  unfolding compute_hash
  compute_hash_inj p q a b c e =
      elim (same_or_collision (append_string p a) (append_string q b) e) [
        | inl same ↦ inl (append_inj same c)
        | inr hit ↦ inr hit
      ]

  count-compute_hash : IsDigest h → (p a : String) → count (compute_hash h p a) ≡ 64
  unfolding compute_hash
  count-compute_hash d p a = d (append_string p a)

  -- Two verified chains of as many records that end in one hash have the same content in every
  -- record, or else at one place their records collide.
  pub chains_agree :
      IsDigest h
      → (p q : String) (xs ys : List AuditRecord) → count p ≡ count q
      → length xs ≡ length ys
      → IsVerified h p xs
      → IsVerified h q ys
      → last_hash p xs ≡ last_hash q ys
      → ((p ≡ q) × (map (content_of h) xs ≡ map (content_of h) ys)) ⊎ Collision xs ys
  unfolding Collision
  chains_agree d p q [] [] c l v w e = inl (e, refl)
  chains_agree d p q [] (y ∷ ys) c l v w e = absurd (omega arith)
  chains_agree d p q (x ∷ xs) [] c l v w e = absurd (omega arith)
  chains_agree d p q (x ∷ xs) (y ∷ ys) c l v w e =
      let (px, hx, vx) = IsVerified-cons h p x xs v in
      let (qy, hy, vy) = IsVerified-cons h q y ys w in
      let width : count x.hash ≡ count y.hash =
        ap count hx
        ∙ count-compute_hash d p (content_of h x)
        ∙ sym (ap count hy ∙ count-compute_hash d q (content_of h y)) in
      elim (chains_agree d x.hash y.hash xs ys width (omega arith) vx vy e) [
        | inr hit ↦ inr (inr hit)
        | inl (same, rest) ↦
            elim (compute_hash_inj p q (content_of h x) (content_of h y) c (sym hx ∙ same ∙ hy)) [
              | inl (before, here) ↦ inl (before, cc)
              | inr hit ↦ inr (inl (rw (px, qy) hit))
            ]
      ]

  -- Two worlds whose chains verify, with as many records and the same last hash, hold records of
  -- the same content, or at one place their records were hashed from two different texts that have
  -- one sha256, where sha256 digests have 64 characters.
  pub trails_agree :
      IsDigest h
      → (v w : World) → length v.trail ≡ length w.trail
      → verify_chain h v ≡ (true, none)
      → verify_chain h w ≡ (true, none)
      → last_hash genesis_hash v.trail ≡ last_hash genesis_hash w.trail
      → (map (content_of h) v.trail ≡ map (content_of h) w.trail) ⊎ Collision v.trail w.trail
  unfolding verify_chain
  trails_agree d v w l e f g =
      elim (chains_agree d genesis_hash genesis_hash v.trail w.trail refl l e f g) [
        | inl same ↦ inl same.1
        | inr hit ↦ inr hit
      ]
