-- ===== src/Deletion/Audited.antt =====
-- A deletion keeps the audit trail whole; a dry run changes nothing.
use wordsworth.Prelude.{
  ℕ, suc, String, ◌≡◌, refl, Bool, true, false, not, ◌&&◌, nat_eq, string_eq, option_eq, List, [],
  ◌∷◌, Outcome, arith, inl, inr, Keeps, Keeps-bind, keeps_rules, pure, if◌then◌else◌, Option-cases,
}
use wordsworth.States.{state_eq}
use wordsworth.World.{World, Exc, Document, find_document}
use wordsworth.Audit.{Host}
use wordsworth.Audit.Chain.{IsDigest}
use wordsworth.Audit.Lawful.{IsAudited}
use wordsworth.Audit.Actions.{Audits, Audits-modify, IsAudited-trail}
use wordsworth.Tokens.Registry.{registered_tokens}
use wordsworth.Pipeline.{anonymized_text}
use wordsworth.Pipeline.Transitions.{transition-Audits}
use wordsworth.Deletion.{
  release_token, release_tokens, remove_entry, remove_object, remove_grants, remove_rows,
  record_deletion, finish_deletion, delete_found, delete_document, DeletionCounts, is_shared,
  is_some_mapping, mapping_of, is_some_text, int,
}
use wordsworth.Deletion.Steps.{KeptByRows, remove_rows-Keeps}

module _ (h : Host) (d : ℕ) where
  IsAudited-rows : KeptByRows d (IsAudited h)
  unfolding release_token
  IsAudited-rows = record {
    on_texts = λ w a. IsAudited-trail h w _ refl a;
    on_release = λ p w a. IsAudited-trail h w _ refl a;
    on_grants = λ w gs a. IsAudited-trail h w _ refl a;
  }

  remove_entry-Audits :
      (answer : ℕ → Outcome Exc (Unit {0})) (dry_run : Bool)
      → Audits h (remove_entry answer dry_run d)
  unfolding remove_entry
  remove_entry-Audits answer dry_run = record { at = λ w a. IsAudited-trail h w _ (ground arith) a }

  remove_object-Audits : (dry_run : Bool) (key : String) → Audits h (remove_object dry_run d key)
  unfolding remove_object
  remove_object-Audits dry_run key = record { at = λ w a. IsAudited-trail h w _ (ground arith) a }

  remove_rows-Audits : (dry_run : Bool) → Audits h (remove_rows dry_run d)
  remove_rows-Audits = remove_rows-Keeps (IsAudited h) d IsAudited-rows

module _ (h : Host) (g : IsDigest h) (d : ℕ) where
  record_deletion-Audits :
      (key actor : String) (already : Bool) (c : DeletionCounts)
      → Audits h (record_deletion h d key actor already c)
  unfolding record_deletion
  record_deletion-Audits key actor true c = search (keeps_rules, transition-Audits) depth 8
  record_deletion-Audits key actor false c =
      search (keeps_rules, transition-Audits, Audits-modify) depth 8

  finish_deletion-Audits :
      (dry_run already : Bool) (key actor : String) (c : DeletionCounts)
      → Audits h (finish_deletion h dry_run already d key actor c)
  unfolding finish_deletion
  finish_deletion-Audits dry_run already key actor c =
      search (keeps_rules, record_deletion-Audits) depth 6

  delete_found-Audits :
      (answer : ℕ → Outcome Exc (Unit {0})) (actor : String) (dry_run : Bool) (doc : Document)
      → Audits h (delete_found h answer d actor dry_run doc)
  unfolding delete_found
  delete_found-Audits answer actor dry_run doc =
      search
        (
          keeps_rules, remove_entry-Audits, remove_object-Audits, remove_rows-Audits,
          finish_deletion-Audits,
        )
        depth 14

  -- A deletion leaves a trail that verifies and on which every document went by allowed edges, if
  -- the trail was so before, also where it raises, where sha256 digests have 64 characters.
  pub delete_document-IsAudited :
      (answer : ℕ → Outcome Exc (Unit {0})) (actor : String) (dry_run : Bool) (w : World)
      → IsAudited h w
      → IsAudited h (delete_document h answer d actor dry_run w).1
  unfolding delete_document
  delete_document-IsAudited answer actor dry_run w a =
      elim (Option-cases (find_document d w.documents)) [
        | inl gone ↦ rw gone a
        | inr (doc, found) ↦ rw found ((delete_found-Audits answer actor dry_run doc).at w a)
      ]

module _ (d : ℕ) (P : World → Type 0) where
  dry_tokens : (ps : List String) → Keeps P (release_tokens true d ps)
  unfolding release_tokens
  dry_tokens [] = search keeps_rules
  dry_tokens (q ∷ ps) = record {
    at = λ w x.
        (Keeps-bind (release_tokens true d ps)
            (λ n. pure (
              if not (is_shared d q w.pseudonyms) && is_some_mapping (mapping_of q w.mappings)
              then suc n
              else n))
            (dry_tokens ps) (search keeps_rules)).at
          w x;
  }

  dry_rows : Keeps P (remove_rows true d)
  unfolding remove_rows remove_grants
  dry_rows = record {
    at = λ w x.
        let ps = registered_tokens d w.pseudonyms in
        (Keeps-bind (release_tokens true d ps)
            (remove_grants true d (int (is_some_text (anonymized_text d w.texts))) ps)
            (dry_tokens ps) (λ n. record { at = λ v y. y })).at
          w x;
  }

module _ (h : Host) (d : ℕ) (w : World) where
  -- The world with more calls counted, and nothing else changed.
  abbrev OnlyCalls : World → Type 0
  OnlyCalls v = v ≡ record w { calls = v.calls }

  dry_entry : (answer : ℕ → Outcome Exc (Unit {0})) → Keeps OnlyCalls (remove_entry answer true d)
  unfolding remove_entry
  dry_entry answer = record { at = λ v x. ground (arith, x) }

  dry_object : (key : String) → Keeps OnlyCalls (remove_object true d key)
  unfolding remove_object
  dry_object key = record { at = λ v x. x }

  dry_finish :
      (already : Bool) (key actor : String) (c : DeletionCounts)
      → Keeps OnlyCalls (finish_deletion h true already d key actor c)
  unfolding finish_deletion
  dry_finish already key actor c = record { at = λ v x. x }

  dry_found :
      (answer : ℕ → Outcome Exc (Unit {0})) (actor : String) (doc : Document)
      → Keeps OnlyCalls (delete_found h answer d actor true doc)
  unfolding delete_found
  dry_found answer actor doc =
      search (keeps_rules, dry_entry, dry_object, dry_rows, dry_finish) depth 14

  -- A dry run of a deletion changes nothing, but that the index was called.
  pub delete_document_dry :
      (answer : ℕ → Outcome Exc (Unit {0})) (actor : String)
      → (delete_document h answer d actor true w).1
        ≡ record w { calls = (delete_document h answer d actor true w).1.calls }
  unfolding delete_document
  delete_document_dry answer actor = elim (Option-cases (find_document d w.documents)) [
    | inl gone ↦ rw gone refl
    | inr (doc, found) ↦ rw found ((dry_found answer actor doc).at w refl)
  ]
