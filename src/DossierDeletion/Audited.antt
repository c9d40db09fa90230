-- ===== src/DossierDeletion/Audited.antt =====
-- The deletion of a dossier keeps the audit trail whole.
use wordsworth.Prelude.{
  ℕ, String, Bool, refl, List, [], ◌∷◌, Outcome, inl, inr, Keeps-bind, keeps_rules, Option-cases,
  arith,
}
use wordsworth.World.{World, Exc}
use wordsworth.Audit.{Host, append, current_state}
use wordsworth.Audit.Chain.{IsDigest}
use wordsworth.Audit.Lawful.{IsAudited, append-IsAudited}
use wordsworth.Audit.Actions.{Audits, Audits-modify, IsAudited-trail}
use wordsworth.Dossiers.{by_id}
use wordsworth.Dossiers.Events.{dossier_deleted}
use wordsworth.Dossiers.Membership.{documents_in}
use wordsworth.Deletion.{delete_document}
use wordsworth.Deletion.Audited.{delete_document-IsAudited}
use wordsworth.DossierDeletion.{
  DossierDeletionReport, delete_member, delete_members, reindex, release_member, release_members,
  remove_dossier, delete_found, delete_dossier,
}

module _ (h : Host) (g : IsDigest h) (answer : ℕ → Outcome Exc (Unit {0})) (i : ℕ)
    (actor : String) where
  dossier_deleted-Audits :
      (d : ℕ) (released : Bool) → Audits h (dossier_deleted h d i actor released)
  unfolding dossier_deleted append
  dossier_deleted-Audits d released = record {
    at = λ w a. elim (Option-cases (current_state d w)) [
      | inl gone ↦ rw gone a
      | inr (s, here) ↦ rw here (append-IsAudited h g d _ _ _ _ w here (inl refl) a)
    ];
  }

  delete_document-Audits :
      (d : ℕ) (dry_run : Bool) → Audits h (delete_document h answer d actor dry_run)
  delete_document-Audits d dry_run = record {
    at = delete_document-IsAudited h g d answer actor dry_run;
  }

  delete_member-Audits :
      (dry_run : Bool) (d : ℕ) → Audits h (delete_member h answer i actor dry_run d)
  unfolding delete_member
  delete_member-Audits dry_run d = search (keeps_rules, delete_document-Audits) depth 8

  delete_members-Audits :
      (dry_run : Bool) (ds : List ℕ) → Audits h (delete_members h answer i actor dry_run ds)
  unfolding delete_members
  delete_members-Audits dry_run [] = search keeps_rules
  delete_members-Audits dry_run (d ∷ ds) =
      Keeps-bind (delete_member h answer i actor dry_run d) _ (delete_member-Audits dry_run d) λ e.
        Keeps-bind (delete_members h answer i actor dry_run ds) _ (delete_members-Audits dry_run ds)
          (search keeps_rules)

  reindex-Audits : (released : Bool) (d : ℕ) → Audits h (reindex h answer i actor released d)
  unfolding reindex
  reindex-Audits released d = record { at = λ w a. IsAudited-trail h w _ (ground arith) a }

  release_member-Audits :
      (gone : List ℕ) (d : ℕ) → Audits h (release_member h answer i actor gone d)
  unfolding release_member
  release_member-Audits gone d =
      search (keeps_rules, Audits-modify, reindex-Audits, dossier_deleted-Audits) depth 8

  release_members-Audits : (gone ds : List ℕ) → Audits h (release_members h answer i actor gone ds)
  unfolding release_members
  release_members-Audits gone [] = search keeps_rules
  release_members-Audits gone (d ∷ ds) =
      Keeps-bind (release_member h answer i actor gone d) _ (release_member-Audits gone d)
        λ u. release_members-Audits gone ds

  remove_dossier-Audits :
      (ds : List ℕ) (r : DossierDeletionReport) → Audits h (remove_dossier h answer i actor ds r)
  unfolding remove_dossier
  remove_dossier-Audits ds r = search (keeps_rules, Audits-modify, release_members-Audits) depth 10

  delete_found-Audits :
      (dry_run : Bool) (ds : List ℕ) → Audits h (delete_found h answer i actor dry_run ds)
  unfolding delete_found
  delete_found-Audits dry_run ds =
      search (keeps_rules, delete_members-Audits, remove_dossier-Audits) depth 10

  -- The deletion of a dossier leaves a trail that verifies and on which every document went by
  -- allowed edges, if the trail was so before, also where it raises, where sha256 digests have 64
  -- characters.
  pub delete_dossier-IsAudited :
      (dry_run : Bool) (w : World)
      → IsAudited h w
      → IsAudited h (delete_dossier h answer i actor dry_run w).1
  unfolding delete_dossier
  delete_dossier-IsAudited dry_run w a = elim (Option-cases (by_id i w.dossiers)) [
    | inl gone ↦ rw gone a
    | inr (x, found) ↦ rw found ((delete_found-Audits dry_run (documents_in (i ∷ []) w)).at w a)
  ]
