-- ===== src/DossierDeletion.antt =====
-- src/wordsworth/dossier_deletion.py: a dossier goes, with its memberships and topics, and with the
-- documents that no other dossier holds. The index answers each call, or fails, as `answer` says.
pub mod Audited
pub mod Kept
pub mod Swept
pub mod Finished
use wordsworth.Prelude.{
  ℕ, String, Bool, true, false, not, ◌&&◌, ◌||◌, Option, none, some, List, [], ◌∷◌, ◌==◌, nat_eq,
  Outcome, keep, contains, length, pure, raise, gets, modify, ◌>>=◌, ◌>>◌, if◌then◌else◌,
}
use wordsworth.World.{World, Db, Exc, Dossier, other}
use wordsworth.Audit.{Host}
use wordsworth.Index
use wordsworth.Pipeline.{dossiers_of}
use wordsworth.Pipeline.Services.{call}
use wordsworth.Dossiers.{by_id, without_member}
use wordsworth.Dossiers.Events.{dossier_deleted}
use wordsworth.Dossiers.Membership.{documents_in}
use wordsworth.Deletion.{delete_document}

-- `DossierDeletionError`
abbrev pub dossier_deletion_error : Exc
dossier_deletion_error = other "dossierdeletionerror" none none

-- `DossierDeletionReport`, with the topics as their number
pub record DossierDeletionReport : Type 0 where
  pub deleted : List ℕ
  pub released : List ℕ
  pub topics : ℕ

-- `_member_elsewhere`, on the rows
unfoldable pub held_elsewhere : ℕ → ℕ → List (ℕ × ℕ) → Bool
held_elsewhere d i [] = false
held_elsewhere d i ((j, e) ∷ ms) = (e == d && not (j == i)) || held_elsewhere d i ms

-- A document of the first loop goes to the one list or the other.
abbrev pub sorted_in : Bool → ℕ → List ℕ × List ℕ → List ℕ × List ℕ
sorted_in true d r = (r.0, d ∷ r.1)
sorted_in false d r = (d ∷ r.0, r.1)

unfoldable pub without_dossier : ℕ → List Dossier → List Dossier
without_dossier i [] = []
without_dossier i (x ∷ xs) = if x.id == i then without_dossier i xs else x ∷ without_dossier i xs

module _ (h : Host) (answer : ℕ → Outcome Exc (Unit {0})) (i : ℕ) (actor : String) where
  -- One member of the first loop: deleted, unless another dossier holds it.
  unfoldable pub delete_member : Bool → ℕ → Db Bool
  unfolding held_elsewhere delete_document
  delete_member dry_run d = do
    elsewhere ← gets (λ w. held_elsewhere d i w.members)
    if elsewhere then pure true else do delete_document h answer d actor dry_run; pure false

  -- The first loop: the documents that were deleted, and those that were released.
  unfoldable pub delete_members : Bool → List ℕ → Db (List ℕ × List ℕ)
  unfolding delete_member
  delete_members dry_run [] = pure ([], [])
  delete_members dry_run (d ∷ ds) = do
    elsewhere ← delete_member dry_run d
    rest ← delete_members dry_run ds
    pure (sorted_in elsewhere d rest)

  -- The index learns which dossiers a released document is left in.
  unfoldable pub reindex : Bool → ℕ → Db (Unit {0})
  unfolding dossiers_of Index.set_dossiers
  reindex released d =
      if released
      then call answer
        >> modify (λ w. record w { index = Index.set_dossiers d (dossiers_of d w) w.index })
      else pure tt

  -- One member of the second loop.
  unfoldable pub release_member : List ℕ → ℕ → Db (Unit {0})
  unfolding without_member reindex dossier_deleted
  release_member gone d = do
    let released = not (contains gone d)
    modify (λ w. record w { members = without_member i d w.members })
    reindex released d
    dossier_deleted h d i actor released

  unfoldable pub release_members : List ℕ → List ℕ → Db (Unit {0})
  unfolding release_member
  release_members gone [] = pure tt
  release_members gone (d ∷ ds) = do release_member gone d; release_members gone ds

  -- What a dry run leaves out.
  unfoldable pub remove_dossier : List ℕ → DossierDeletionReport → Db DossierDeletionReport
  unfolding release_members without_dossier
  remove_dossier ds report = do
    release_members report.deleted ds
    modify (λ w. record w { topics = keep (λ t. not (t.1 == i)) w.topics })
    modify (λ w. record w { dossiers = without_dossier i w.dossiers })
    pure report

  -- The two loops, over the dossier's members.
  unfoldable pub delete_found : Bool → List ℕ → Db DossierDeletionReport
  unfolding delete_members remove_dossier
  delete_found dry_run ds = do
    r ← delete_members dry_run ds
    n ← gets (λ w. length (keep (λ t. t.1 == i) w.topics))
    let report : DossierDeletionReport = record { deleted = r.0; released = r.1; topics = n }
    if dry_run then pure report else remove_dossier ds report

  unfoldable pub delete_dossier : Bool → Db DossierDeletionReport
  unfolding by_id documents_in delete_found
  delete_dossier dry_run = do
    found ← gets (λ w. by_id i w.dossiers)
    elim found [
      | none ↦ raise dossier_deletion_error
      | some dossier ↦ do ds ← gets (documents_in (i ∷ [])); delete_found dry_run ds
    ]
