-- ===== src/Examples/Closures.antt =====
-- The theorems on the deletion of a dossier and on released keys, applied.
use wordsworth.Prelude.{
  map, ℕ, zero, suc, ◌≡◌, refl, true, false, none, some, [], ◌∷◌, ok, latest, arith, keep, ◌==◌,
  nat_eq, ◌⊎◌, ◌≢◌,
}
use wordsworth.Json.{end}
use wordsworth.States.{registered, deleted}
use wordsworth.World.{World, Dossier, find_document}
use wordsworth.Pipeline.{ingest}
use wordsworth.Audit.{append, current_state}
use wordsworth.Audit.Lawful.{IsAudited}
use wordsworth.Dossiers.{by_id, is_member}
use wordsworth.Deletion.Gone.{reached}
use wordsworth.DossierDeletion.{DossierDeletionReport, delete_dossier}
use wordsworth.ReleaseDeleted.{find_candidates, candidates_in, starts_with, run}
use wordsworth.ReleaseDeleted.Idempotent.{find_candidates-run}
use wordsworth.DossierDeletion.Audited.{delete_dossier-IsAudited}
use wordsworth.DossierDeletion.Kept.{IsUntouched, delete_dossier-IsUntouched}
use wordsworth.DossierDeletion.Swept.{IsThere}
use wordsworth.DossierDeletion.Finished.{delete_dossier-IsClosed}
use wordsworth.Examples.Samples.{host, empty_world, arrival, pdf}
use wordsworth.Examples.Trails.{host-IsDigest, arrived-IsAudited}
use wordsworth.Examples.Copies.{first, two_records}

abbrev woo : Dossier
woo = record { id = 7; name = "Woo 7" }

-- Two documents in dossier 7; the second is in dossier 8 too.
abbrev filed : World
filed = record two_records {
  documents = first ∷ record first { id = 2; object_key = "documents/b" } ∷ [];
  dossiers = woo ∷ record woo { id = 8; name = "Woo 8" } ∷ [];
  members = (7, 1) ∷ (7, 2) ∷ (8, 2) ∷ [];
  topics = (1, 7) ∷ (2, 8) ∷ [];
}

delete_dossier-IsAudited_example :
    IsAudited host
      (delete_dossier host reached 2 "jan" false
        (ingest host (λ w. w) pdf (some "Woo 7") arrival empty_world).1).1
delete_dossier-IsAudited_example =
    delete_dossier-IsAudited host host-IsDigest reached 2 "jan" false
      (ingest host (λ w. w) pdf (some "Woo 7") arrival empty_world).1 arrived-IsAudited

delete_dossier-IsUntouched_example :
    IsUntouched filed 8 2 (delete_dossier host reached 7 "jan" false filed).1
unfolding is_member
delete_dossier-IsUntouched_example =
    delete_dossier-IsUntouched host reached 7 "jan" false 8 2 filed (λ e. omega arith) refl

filed-IsThere : (d : ℕ) → is_member 7 d filed.members ≡ true → IsThere d filed
unfolding is_member find_document current_state append latest
filed-IsThere (suc zero) k = record {
  doc = first;
  state = registered;
  found = refl;
  in_state = refl;
}
filed-IsThere (suc (suc zero)) k = record {
  doc = record first { id = 2; object_key = "documents/b" };
  state = registered;
  found = refl;
  in_state = refl;
}
filed-IsThere zero k = absurd (cc k)
filed-IsThere (suc (suc (suc d))) k = absurd (ground (arith, k))

delete_dossier-IsClosed_example :
    (r : DossierDeletionReport) × ((delete_dossier host reached 7 "jan" false filed).0 ≡ ok r)
    × (by_id 7 (delete_dossier host reached 7 "jan" false filed).1.dossiers ≡ none)
    × (keep (λ t. t.1 == 7) (delete_dossier host reached 7 "jan" false filed).1.topics ≡ [])
    × ((d : ℕ) → is_member 7 d (delete_dossier host reached 7 "jan" false filed).1.members ≡ false)
    × ((e : ℕ)
        → (is_member 7 e filed.members ≡ false)
          ⊎ (current_state e (delete_dossier host reached 7 "jan" false filed).1 ≡ some deleted)
          ⊎ ((j : ℕ) × (j ≢ 7) × (is_member j e filed.members ≡ true)))
unfolding by_id is_member
delete_dossier-IsClosed_example = delete_dossier-IsClosed host 7 "jan" filed woo refl filed-IsThere

-- A document that was deleted before a deletion released its key.
abbrev old_deletion : World
old_deletion = record (append host 1 (some registered) deleted "delete" end two_records).1 {
  documents = first ∷ [];
}

-- It is what a run finds.
found_run : find_candidates old_deletion ≡ (1, "documents/5feceb66") ∷ []
unfolding find_candidates append current_state latest candidates_in starts_with
found_run = refl

find_candidates-run_example :
    ((run host true old_deletion).0
      ≡ ok (
        map (λ c. c.0) (find_candidates old_deletion),
        map (λ c. c.0) (find_candidates old_deletion),
      ))
    × (find_candidates (run host true old_deletion).1 ≡ [])
find_candidates-run_example = find_candidates-run host old_deletion
