-- ===== src/Deletion/Frame.antt =====
-- What a deletion leaves to the other documents, on every path, errors and dry runs included.
use wordsworth.Prelude.{
  ℕ, String, ◌≡◌, ◌≢◌, refl, Bool, true, nat_eq, string_eq, option_eq, Option, Outcome, Keeps,
  keeps_rules, arith, inl, inr, eq_iff, Option-cases, ◌∙◌,
}
use wordsworth.Json.{Fields}
use wordsworth.States.{State, state_eq}
use wordsworth.World.{World, Exc, Document, PiiMapping, find_document}
use wordsworth.Audit.{Host, append}
use wordsworth.Tokens.Registry.{is_registered}
use wordsworth.Pipeline.{transition}
use wordsworth.Deletion.{
  mapping_of, release_token, remove_entry, remove_object, remove_rows, record_deletion,
  finish_deletion, delete_found, delete_document, DeletionCounts,
}
use wordsworth.Deletion.Steps.{KeptByRows, remove_rows-Keeps}
use wordsworth.Deletion.Tables.{
  mapping_of-without_mapping, is_registered-is_shared, is_registered-without_token,
}

module _ (h : Host) (d : ℕ) (to : State) (step : String) (p : Fields) (w : World) where
  pub transition-mappings : (transition h d to step p w).1.mappings ≡ w.mappings
  unfolding transition append
  transition-mappings = ground arith

  pub transition-pseudonyms : (transition h d to step p w).1.pseudonyms ≡ w.pseudonyms
  unfolding transition append
  transition-pseudonyms = ground arith

  pub transition-objects : (transition h d to step p w).1.objects ≡ w.objects
  unfolding transition append
  transition-objects = ground arith

module _ (e d : ℕ) (p : String) (n : e ≢ d) (m : Option PiiMapping) where
  -- The pseudonym is registered for the other document, and its mapping is `m`.
  abbrev IsMapped : World → Type 0
  IsMapped w = (is_registered e p w.pseudonyms ≡ true) × (mapping_of p w.mappings ≡ m)

  release_token-IsMapped : (q : String) (w : World) → IsMapped w → IsMapped (release_token d q w)
  unfolding release_token
  release_token-IsMapped q w (r, k) = (
    is_registered-without_token d e p q w.pseudonyms n ∙ r,
    ground (
      arith,
      mapping_of-without_mapping q p w.mappings,
      eq_iff q p,
      is_registered-is_shared d e p w.pseudonyms n r,
      k,
    ),
  )

  IsMapped-KeptByRows : KeptByRows d IsMapped
  IsMapped-KeptByRows = record {
    on_texts = λ w x. x;
    on_release = release_token-IsMapped;
    on_grants = λ w gs x. x;
  }

  remove_entry-Keeps :
      (answer : ℕ → Outcome Exc (Unit {0})) (dry_run : Bool)
      → Keeps IsMapped (remove_entry answer dry_run d)
  unfolding remove_entry
  remove_entry-Keeps answer dry_run = record { at = λ w x. ground arith }

  remove_object-Keeps :
      (dry_run : Bool) (key : String) → Keeps IsMapped (remove_object dry_run d key)
  unfolding remove_object
  remove_object-Keeps dry_run key = record { at = λ w x. ground arith }

  record_deletion-Keeps :
      (h : Host) (key actor : String) (already : Bool) (c : DeletionCounts)
      → Keeps IsMapped (record_deletion h d key actor already c)
  unfolding record_deletion transition append
  record_deletion-Keeps h key actor already c = record { at = λ w x. ground arith }

  finish_deletion-Keeps :
      (h : Host) (dry_run already : Bool) (key actor : String) (c : DeletionCounts)
      → Keeps IsMapped (finish_deletion h dry_run already d key actor c)
  unfolding finish_deletion
  finish_deletion-Keeps h dry_run already key actor c =
      search (keeps_rules, record_deletion-Keeps) depth 6

  IsMapped-rows : (dry_run : Bool) → Keeps IsMapped (remove_rows dry_run d)
  IsMapped-rows = remove_rows-Keeps IsMapped d IsMapped-KeptByRows

  delete_found-Keeps :
      (h : Host) (answer : ℕ → Outcome Exc (Unit {0})) (actor : String) (dry_run : Bool)
      (doc : Document)
      → Keeps IsMapped (delete_found h answer d actor dry_run doc)
  unfolding delete_found
  delete_found-Keeps h answer actor dry_run doc =
      search
        (keeps_rules, remove_entry-Keeps, remove_object-Keeps, IsMapped-rows, finish_deletion-Keeps)
        depth 14

module _ (h : Host) (answer : ℕ → Outcome Exc (Unit {0})) (d : ℕ) (actor : String)
    (dry_run : Bool) where
  -- A pseudonym that is registered for another document keeps its mapping, and stays registered,
  -- whatever a deletion does, also where it raises.
  pub mapping_of-delete_document :
      (e : ℕ) (p : String) (w : World)
      → e ≢ d
      → is_registered e p w.pseudonyms ≡ true
      → (is_registered e p (delete_document h answer d actor dry_run w).1.pseudonyms ≡ true)
        × (mapping_of p (delete_document h answer d actor dry_run w).1.mappings
            ≡ mapping_of p w.mappings)
  unfolding delete_document
  mapping_of-delete_document e p w n r = elim (Option-cases (find_document d w.documents)) [
    | inl gone ↦ rw gone (r, refl)
    | inr (doc, found) ↦ rw found (
        (delete_found-Keeps e d p n (mapping_of p w.mappings) h answer actor dry_run doc).at w
          (r, refl))
  ]
