-- ===== src/Dossiers/Audited.antt =====
-- Every dossier operation keeps the audit trail whole.
use wordsworth.Prelude.{
  ℕ, String, refl, Option, none, some, arith, inl, inr, keeps_rules, Option-cases, Keeps-bind, pure,
  gets, ◌>>=◌,
}
use wordsworth.World.{World, Dossier, savepoint, catch_integrity}
use wordsworth.Audit.{Host, append, current_state}
use wordsworth.Audit.Chain.{IsDigest}
use wordsworth.Audit.Lawful.{IsAudited, append-IsAudited}
use wordsworth.Audit.Actions.{
  Audits, Audits-modify, Audits-savepoint, Audits-catch, IsAudited-trail,
}
use wordsworth.Dossiers.{insert_dossier, found_or_raise, checked_name, ensure, by_name}
use wordsworth.Dossiers.Events.{membership_changed}
use wordsworth.Dossiers.Membership.{insert_member, add, remove}

module _ (h : Host) (g : IsDigest h) where
  pub membership_changed-Audits :
      (doc dossier : ℕ) (name step actor : String) (reason batch : Option String)
      → Audits h (membership_changed h doc dossier name step actor reason batch)
  unfolding membership_changed append
  membership_changed-Audits doc dossier name step actor reason batch = record {
    at = λ w a. elim (Option-cases (current_state doc w)) [
      | inl gone ↦ rw gone a
      | inr (s, here) ↦ rw here (append-IsAudited h g doc (some s) s step _ w here (inl refl) a)
    ];
  }

  pub checked_name-Audits : (name : String) → Audits h (checked_name name)
  unfolding checked_name
  checked_name-Audits name = search keeps_rules depth 8

  pub insert_dossier-Audits : (name : String) → Audits h (insert_dossier name)
  unfolding insert_dossier
  insert_dossier-Audits name = record { at = λ w a. IsAudited-trail h w _ (ground arith) a }

  pub insert_member-Audits : (dossier doc : ℕ) → Audits h (insert_member dossier doc)
  unfolding insert_member
  insert_member-Audits dossier doc = record { at = λ w a. IsAudited-trail h w _ (ground arith) a }

  pub add-Audits :
      (dossier doc : ℕ) (actor : String) (batch : Option String)
      → Audits h (add h dossier doc actor batch)
  unfolding add
  add-Audits dossier doc actor batch =
      search
        (
          keeps_rules, membership_changed-Audits, insert_member-Audits, Audits-savepoint,
          Audits-catch,
        )
        depth 12

  pub found_or_raise-Audits : (o : Option Dossier) → Audits h (found_or_raise o)
  unfolding found_or_raise
  found_or_raise-Audits none = search keeps_rules
  found_or_raise-Audits (some d) = search keeps_rules

  ensured :
      (n : String) (o : Option Dossier)
      → Audits h (elim o [
        | some d ↦ pure d
        | none ↦
            catch_integrity
              (savepoint (insert_dossier n))
              (do again ← gets (λ w. by_name n w.dossiers); found_or_raise again)
      ])
  ensured n none =
      search
        (keeps_rules, insert_dossier-Audits, found_or_raise-Audits, Audits-savepoint, Audits-catch)
        depth 8
  ensured n (some d) = search keeps_rules

  pub ensure-Audits : (name : String) → Audits h (ensure name)
  unfolding ensure
  ensure-Audits name =
      Keeps-bind (checked_name name) _ (checked_name-Audits name)
        λ n. Keeps-bind (gets (λ w. by_name n w.dossiers)) _ (search keeps_rules) (ensured n)

  pub remove-Audits :
      (dossier doc : ℕ) (actor reason : String) (batch : Option String)
      → Audits h (remove h dossier doc actor reason batch)
  unfolding remove
  remove-Audits dossier doc actor reason batch =
      search (keeps_rules, membership_changed-Audits, Audits-modify) depth 12

  -- A removal leaves a trail that verifies and on which every document went by allowed edges, if the
  -- trail was so before and where sha256 digests have 64 characters, also where it raises.
  pub remove-IsAudited :
      (dossier doc : ℕ) (actor reason : String) (batch : Option String) (w : World)
      → IsAudited h w
      → IsAudited h (remove h dossier doc actor reason batch w).1
  remove-IsAudited dossier doc actor reason batch w a =
      (remove-Audits dossier doc actor reason batch).at w a
