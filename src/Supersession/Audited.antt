-- ===== src/Supersession/Audited.antt =====
-- A supersession keeps the audit trail whole.
use wordsworth.Prelude.{
  ℕ, String, not, require, ◌==◌, nat_eq, string_eq, option_eq, if◌then◌else◌, Option-cases, inl,
  inr, Option, none, some, List, [], ◌∷◌, Outcome, arith, Keeps-bind, keeps_rules, pure, raise,
}
use wordsworth.World.{supersession_error, World, Exc, Document, find_document}
use wordsworth.Audit.{Host}
use wordsworth.Audit.Chain.{IsDigest}
use wordsworth.Audit.Lawful.{IsAudited}
use wordsworth.Audit.Actions.{Audits, Audits-modify, IsAudited-trail}
use wordsworth.Dossiers.Membership.{add, remove}
use wordsworth.Dossiers.Audited.{add-Audits, remove-Audits}
use wordsworth.Pipeline.Transitions.{transition-Audits}
use wordsworth.Supersession.{
  supersession_reason, claimed_key, drop_entry, move_memberships, retire_copy, supersede_found,
  supersede, nothing_done,
}

module _ (h : Host) (g : IsDigest h) where
  drop_entry-Audits :
      (index : Option (ℕ → Outcome Exc (Unit {0}))) (d : ℕ) → Audits h (drop_entry index d)
  unfolding drop_entry
  drop_entry-Audits none d = search keeps_rules
  drop_entry-Audits (some answer) d = record { at = λ w a. IsAudited-trail h w _ (ground arith) a }

  move_memberships-Audits :
      (ds : List ℕ) (c s : ℕ) (actor : String) (batch : Option String)
      → Audits h (move_memberships h ds c s actor batch)
  unfolding move_memberships
  move_memberships-Audits [] c s actor batch = search keeps_rules
  move_memberships-Audits (i ∷ is) c s actor batch =
      Keeps-bind (add h i s actor batch) _ (add-Audits h g i s actor batch) λ m.
        Keeps-bind (remove h i c actor (supersession_reason h s) batch) _
          (remove-Audits h g i c actor (supersession_reason h s) batch)
          λ r.
            Keeps-bind (move_memberships h is c s actor batch) _
              (move_memberships-Audits is c s actor batch) λ n. record { at = λ w a. a }

  retire_copy-Audits :
      (index : Option (ℕ → Outcome Exc (Unit {0}))) (c s : ℕ) (actor : String)
      (batch as_object : Option String)
      → Audits h (retire_copy h index c s actor batch as_object)
  unfolding retire_copy
  retire_copy-Audits index c s actor batch as_object =
      search
        (keeps_rules, drop_entry-Audits, move_memberships-Audits, transition-Audits, Audits-modify)
        depth 14

  supersede_found-Audits :
      (index : Option (ℕ → Outcome Exc (Unit {0}))) (c s : Document) (actor : String)
      (batch as_object : Option String)
      → Audits h (supersede_found h index c s actor batch as_object)
  unfolding supersede_found
  supersede_found-Audits index c s actor batch as_object =
      Keeps-bind (require (not (c.id == s.id)) supersession_error) _ (search keeps_rules) λ u.
        Keeps-bind (require (claimed_key as_object c.object_key == s.object_key) supersession_error)
          _ (search keeps_rules)
          λ u.
            Keeps-bind (require (s.superseded_by == none) supersession_error) _ (search keeps_rules)
              λ u. already c.superseded_by
    where
      already :
          (o : Option ℕ)
          → Audits h (elim o [
            | some i ↦ if i == s.id then pure nothing_done else raise supersession_error
            | none ↦ retire_copy h index c.id s.id actor batch as_object
          ])
      already none = retire_copy-Audits index c.id s.id actor batch as_object
      already (some i) = search keeps_rules

  pub supersede-Audits :
      (index : Option (ℕ → Outcome Exc (Unit {0}))) (c s : ℕ) (actor : String)
      (batch as_object : Option String)
      → Audits h (supersede h index c s actor batch as_object)
  unfolding supersede
  supersede-Audits index c s actor batch as_object = record {
    at = λ w a. elim (Option-cases (find_document c w.documents)) [
      | inl gone ↦ rw gone a
      | inr (x, there) ↦ elim (Option-cases (find_document s w.documents)) [
        | inl gone ↦ rw (there, gone) a
        | inr (y, here) ↦
            rw (there, here) ((supersede_found-Audits index x y actor batch as_object).at w a)
      ]
    ];
  }

  -- A supersession leaves a trail that verifies and on which every document went by allowed edges,
  -- if the trail was so before, also where it raises, where sha256 digests have 64 characters.
  pub supersede-IsAudited :
      (index : Option (ℕ → Outcome Exc (Unit {0}))) (c s : ℕ) (actor : String)
      (batch as_object : Option String) (w : World)
      → IsAudited h w
      → IsAudited h (supersede h index c s actor batch as_object w).1
  supersede-IsAudited index c s actor batch as_object w a =
      (supersede-Audits index c s actor batch as_object).at w a
