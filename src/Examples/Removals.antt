-- ===== src/Examples/Removals.antt =====
-- The theorems on deletion and on the index, applied.
use wordsworth.Dossiers.Events.{membership_changed}
use wordsworth.Dossiers.Membership.{add}
use wordsworth.Dossiers.{ensure}
use wordsworth.Prelude.{◌≡◌, refl, true, false, none, some, [], ◌∷◌, ok, latest, arith}
use wordsworth.Json.{end}
use wordsworth.Pipeline.Process.{process}
use wordsworth.Pipeline.Process.Indexed.{IsSearchable, process-IsSearchable}
use wordsworth.States.{extracted, anonymized, indexed, deleted, registered}
use wordsworth.World.{World, Document, find_document}
use wordsworth.Audit.{current_state, append}
use wordsworth.Audit.Lawful.{IsAudited}
use wordsworth.Tokens.Registry.{is_registered}
use wordsworth.Objects
use wordsworth.Pipeline.{anonymized_text, ingest, register, register_live, transition}
use wordsworth.Deletion.{DeletionCounts, delete_document, mapping_of, object_claimed_elsewhere}
use wordsworth.Deletion.Gone.{Emptied, reached, delete_document-Emptied}
use wordsworth.Deletion.Frame.{mapping_of-delete_document}
use wordsworth.Deletion.Originals.{get_raw-delete_document}
use wordsworth.Deletion.Audited.{delete_document-IsAudited, delete_document_dry}
use wordsworth.Examples.Samples.{services, host, empty_world, arrival, pdf}
use wordsworth.Examples.Trails.{host-IsDigest, arrived-IsAudited}

abbrev arrived : World
arrived = (ingest host (λ w. w) pdf (some "Woo 7") arrival empty_world).1

abbrev document : Document
document = record {
  id = 1;
  object_key = "documents/5feceb66";
  filename = some "besluit.pdf";
  superseded_by = none;
  source_url = none;
  fetched_at = none;
  source_sha256 = some "5feceb66";
}

delete_document-Emptied_example :
    (c : DeletionCounts) × ((delete_document host reached 1 "jan" false arrived).0 ≡ ok c)
    × Emptied 1 deleted (delete_document host reached 1 "jan" false arrived).1
unfolding find_document current_state ingest register_live register transition latest append ensure
    add membership_changed
delete_document-Emptied_example =
    delete_document-Emptied host 1 registered "jan" document arrived refl refl

-- Two documents share a pseudonym.
abbrev shared : World
shared = record arrived {
  pseudonyms = (1, "[PERSON:5c93c3df]") ∷ (2, "[PERSON:5c93c3df]") ∷ [];
  mappings =
      record {
        pseudonym = "[PERSON:5c93c3df]";
        key_id = "person";
        ciphertext = [];
        nonce = [];
        norm_version = none;
      }
      ∷ [];
}

mapping_of-delete_document_example :
    (is_registered 2 "[PERSON:5c93c3df]"
        (delete_document host reached 1 "jan" false shared).1.pseudonyms
      ≡ true)
    × (mapping_of "[PERSON:5c93c3df]" (delete_document host reached 1 "jan" false shared).1.mappings
        ≡ mapping_of "[PERSON:5c93c3df]" shared.mappings)
unfolding is_registered
mapping_of-delete_document_example =
    mapping_of-delete_document host reached 1 "jan" false 2 "[PERSON:5c93c3df]" shared (omega arith)
      refl

-- A copy of the document that was superseded keeps its key.
abbrev copied : World
copied = record arrived {
  documents = document ∷ record document { id = 2; superseded_by = some 1 } ∷ [];
}

get_raw-delete_document_example :
    Objects.get_raw "documents/5feceb66"
      (delete_document host reached 1 "jan" false copied).1.objects
    ≡ Objects.get_raw "documents/5feceb66" copied.objects
unfolding object_claimed_elsewhere latest ingest register_live register transition append ensure add
    membership_changed
get_raw-delete_document_example =
    get_raw-delete_document host reached 1 "jan" false "documents/5feceb66" copied refl

delete_document-IsAudited_example :
    IsAudited host (delete_document host reached 1 "jan" false arrived).1
delete_document-IsAudited_example =
    delete_document-IsAudited host host-IsDigest 1 reached "jan" false arrived arrived-IsAudited

delete_document_dry_example :
    (delete_document host reached 1 "jan" true arrived).1
    ≡ record arrived { calls = (delete_document host reached 1 "jan" true arrived).1.calls }
delete_document_dry_example = delete_document_dry host 1 arrived reached "jan"

-- The document as it is once it was anonymised.
abbrev anonymized_world : World
anonymized_world = record (append host 1 (some extracted) anonymized "anonymize" end arrived).1 {
  texts = (1, "besluit op bezwaar") ∷ [];
}

process-IsSearchable_example :
    ((process host services 1 100 anonymized_world).0 ≡ ok (some indexed))
    × IsSearchable 1 document "besluit op bezwaar" (process host services 1 100 anonymized_world).1
unfolding find_document current_state append anonymized_text ingest register_live register
    transition latest ensure add membership_changed
process-IsSearchable_example =
    process-IsSearchable host services (λ s. 1 ∷ 0 ∷ []) (λ n s. refl) (λ n. refl) 1 document
      "besluit op bezwaar" 100 anonymized_world refl refl refl
