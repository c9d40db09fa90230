-- ===== src/Deletion.antt =====
-- src/wordsworth/deletion.py: a document's content is removed; its row and its audit records stay.
-- The index answers each call, or fails, as `answer` says of the number of the call.
pub mod Tables
pub mod Steps
pub mod Frame
pub mod Others
pub mod Rows
pub mod Gone
pub mod Originals
pub mod Audited
use Prim.Native.String.{◌++◌ as append_string}
use wordsworth.Prelude.{
  ℕ, suc, String, Bool, true, false, not, ◌&&◌, ◌||◌, Option, none, some, List, [], ◌∷◌, ◌==◌,
  nat_eq, string_eq, option_eq, keep, length, Outcome, pure, raise, gets, modify, ◌>>=◌, ◌>>◌,
  continue, if◌then◌else◌,
}
use wordsworth.Json.{Json, str, num, Fields, end, field}
use wordsworth.States.{State, deleted, state_eq}
use wordsworth.World.{
  AuditRecord, World, Db, Exc, Document, PiiMapping, GrantRow, find_document, set_document,
  deletion_error,
}
use wordsworth.Audit.{Host, current_state, state_in}
use wordsworth.Tokens.Registry.{registered_tokens}
use wordsworth.Objects
use wordsworth.Index
use wordsworth.Pipeline.{transition, anonymized_text}
use wordsworth.Pipeline.Services.{call}

-- `DeletionCounts`
pub record DeletionCounts : Type 0 where
  pub object : ℕ
  pub text : ℕ
  pub pseudonyms : ℕ
  pub mappings : ℕ
  pub index_entries : ℕ
  pub grants : ℕ

-- `int(b)`
abbrev pub int : Bool → ℕ
int true = 1
int false = 0

-- `session.delete` of the document's text.
unfoldable pub without_text : ℕ → List (ℕ × String) → List (ℕ × String)
without_text d [] = []
without_text d ((e, t) ∷ ts) = if e == d then without_text d ts else (e, t) ∷ without_text d ts

unfoldable pub without_token : ℕ → String → List (ℕ × String) → List (ℕ × String)
without_token d p [] = []
without_token d p ((e, q) ∷ rows) =
    if e == d && q == p then without_token d p rows else (e, q) ∷ without_token d p rows

-- A row of the pseudonym for a document other than `d`.
unfoldable pub is_shared : ℕ → String → List (ℕ × String) → Bool
is_shared d p [] = false
is_shared d p ((e, q) ∷ rows) = (q == p && not (e == d)) || is_shared d p rows

-- `session.get(PiiMapping, pseudonym)`
unfoldable pub mapping_of : String → List PiiMapping → Option PiiMapping
mapping_of p [] = none
mapping_of p (m ∷ ms) = if m.pseudonym == p then some m else mapping_of p ms

unfoldable pub without_mapping : String → List PiiMapping → List PiiMapping
without_mapping p [] = []
without_mapping p (m ∷ ms) =
    if m.pseudonym == p then without_mapping p ms else m ∷ without_mapping p ms

abbrev pub is_some_mapping : Option PiiMapping → Bool
is_some_mapping none = false
is_some_mapping (some m) = true

abbrev pub is_some_text : Option String → Bool
is_some_text none = false
is_some_text (some t) = true

abbrev pub names_document : ℕ → GrantRow → Bool
names_document d g = g.document_id == some d

-- Another document of the list that claims the key and is not deleted.
unfoldable pub claims : List AuditRecord → ℕ → String → List Document → Bool
unfolding state_in
claims trail d key [] = false
claims trail d key (e ∷ es) =
    (e.object_key == key && not (e.id == d) && not (state_in e.id trail == some deleted))
    || claims trail d key es

-- `_object_claimed_elsewhere`
unfoldable pub object_claimed_elsewhere : ℕ → String → World → Bool
unfolding claims
object_claimed_elsewhere d key w = claims w.trail d key w.documents

-- The counts, from what each step says that it removed.
abbrev pub counted : Bool → Bool → ℕ × ℕ × ℕ × ℕ → DeletionCounts
counted entry object (text, pseudonyms, mappings, grants) = record {
  object = int object;
  text = text;
  pseudonyms = pseudonyms;
  mappings = mappings;
  index_entries = int entry;
  grants = grants;
}

-- A write, unless it is a dry run.
abbrev pub change : Bool → (World → World) → Db (Unit {0})
change dry_run f = modify (λ w. if dry_run then w else f w)

-- The rows of one pseudonym: the document's own always, the mapping if no other document has it.
unfoldable pub release_token : ℕ → String → World → World
unfolding without_token is_shared without_mapping
release_token d p w = record w {
  pseudonyms = without_token d p w.pseudonyms;
  mappings = if is_shared d p w.pseudonyms then w.mappings else without_mapping p w.mappings;
}

-- The loop over the document's pseudonyms: how many mappings go.
unfoldable pub release_tokens : Bool → ℕ → List String → Db ℕ
unfolding is_shared mapping_of release_token
release_tokens dry_run d [] = pure 0
release_tokens dry_run d (p ∷ ps) = do
  orphan ← gets (λ w. not (is_shared d p w.pseudonyms) && is_some_mapping (mapping_of p w.mappings))
  change dry_run (release_token d p)
  n ← release_tokens dry_run d ps
  pure (if orphan then suc n else n)

unfoldable pub remove_entry : (ℕ → Outcome Exc (Unit {0})) → Bool → ℕ → Db Bool
remove_entry answer dry_run d = do
  call answer
  there ← gets (λ w. Index.exists d w.index)
  if not (not dry_run && there)
      then pure there
      else do call answer; modify (λ w. record w { index = Index.delete d w.index }); pure there

unfoldable pub remove_object : Bool → ℕ → String → Db Bool
unfolding object_claimed_elsewhere
remove_object dry_run d key = do
  removable ← gets (λ w. Objects.exists key w.objects && not (object_claimed_elsewhere d key w))
  change dry_run (λ w. if removable then record w { objects = Objects.delete key w.objects } else w)
  pure removable

-- The grants, and what was counted before them.
unfoldable pub remove_grants : Bool → ℕ → ℕ → List String → ℕ → Db (ℕ × ℕ × ℕ × ℕ)
remove_grants dry_run d text ps n = do
  gs ← gets (λ w. keep (names_document d) w.grants)
  change dry_run (λ w. record w { grants = keep (λ g. not (names_document d g)) w.grants })
  pure (text, length ps, n, length gs)

-- The text, the pseudonyms with their mappings, and the grants.
unfoldable pub remove_rows : Bool → ℕ → Db (ℕ × ℕ × ℕ × ℕ)
unfolding anonymized_text without_text registered_tokens release_tokens remove_grants
remove_rows dry_run d = do
  text ← gets (λ w. is_some_text (anonymized_text d w.texts))
  change dry_run (λ w. record w { texts = without_text d w.texts })
  ps ← gets (λ w. registered_tokens d w.pseudonyms)
  n ← release_tokens dry_run d ps
  remove_grants dry_run d (int text) ps n

module _ (h : Host) where
  -- `released_object_key`
  unfoldable pub released_object_key : ℕ → String
  released_object_key d = append_string "deleted/" (h.uuid_text d)

  abbrev pub counts_fields : DeletionCounts → Fields → Fields
  counts_fields c more = field "object" (num c.object) (
      field "text" (num c.text) (
        field "pseudonyms" (num c.pseudonyms) (
          field "mappings" (num c.mappings)
            (field "index_entries" (num c.index_entries) (field "grants" (num c.grants) more)))))

  -- The key is released and the record written.
  unfoldable pub record_deletion : ℕ → String → String → Bool → DeletionCounts → Db (Unit {0})
  unfolding released_object_key set_document
  record_deletion d former_key actor already_deleted c = do
    modify (λ w. if already_deleted then w else record w {
      documents =
          set_document d (λ doc. record doc { object_key = released_object_key d }) w.documents;
    })
    transition h d deleted "delete" (
        field "actor" (str actor) (
          counts_fields c
            (if already_deleted then end else field "released_object_key" (str former_key) end)))
    pure tt

  -- What follows the removals, unless it is a dry run.
  unfoldable pub finish_deletion :
      Bool → Bool → ℕ → String → String → DeletionCounts → Db DeletionCounts
  unfolding record_deletion
  finish_deletion dry_run already_deleted d former_key actor c =
      if dry_run then pure c else do record_deletion d former_key actor already_deleted c; pure c

  unfoldable pub delete_found :
      (ℕ → Outcome Exc (Unit {0})) → ℕ → String → Bool → Document → Db DeletionCounts
  unfolding remove_entry remove_object remove_rows finish_deletion current_state
  delete_found answer d actor dry_run doc = do
    already_deleted ← gets (λ w. current_state d w == some deleted)
    entry ← remove_entry answer dry_run d
    object ← remove_object dry_run d doc.object_key
    rows ← remove_rows dry_run d
    finish_deletion dry_run already_deleted d doc.object_key actor (counted entry object rows)

  unfoldable pub delete_document :
      (ℕ → Outcome Exc (Unit {0})) → ℕ → String → Bool → Db DeletionCounts
  unfolding find_document delete_found
  delete_document answer d actor dry_run = do
    found ← gets (λ w. find_document d w.documents)
    elim found [ none ↦ raise deletion_error | some doc ↦ delete_found answer d actor dry_run doc ]
