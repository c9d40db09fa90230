-- ===== src/Pipeline.antt =====
-- src/wordsworth/pipeline.py: guarded transitions, registration and ingest. `process` is
-- in the children. The caller owns the transaction.
pub mod Transitions
pub mod Live
pub mod Services
pub mod Process
pub mod Audited
use Prim.Native.String.{◌++◌ as append_string}
use wordsworth.Prelude.{
  ℕ, String, Bool, true, false, not, ◌&&◌, ◌||◌, Option, none, some, List, [], ◌∷◌, ◌++◌, ◌==◌,
  nat_eq, string_eq, option_eq, ok, err, pure, raise, gets, modify, require, ◌>>=◌, ◌>>◌, continue,
  if◌then◌else◌, Outcome, map, latest, keep,
}
use wordsworth.Json.{Json, null, str, Fields, end, field, put, get, str_or_null}
use wordsworth.States.{State, registered, is_allowed, state_eq, failed}
use wordsworth.World.{
  World, Db, Exc, Document, AuditRecord, Bytes, draw_id, savepoint, catch_integrity, value_error,
  integrity_error, find_document,
}
use wordsworth.Audit.{Host, append, current_state}
use wordsworth.Objects
use wordsworth.Objects.{PutResult, wrote, write_original}
use wordsworth.Dossiers.{ensure}
use wordsworth.Dossiers.Membership.{add}

-- `DEFAULT_DOMAIN`
abbrev pub default_domain : String
default_domain = "_global"

-- What a caller tells of a document that it registers.
pub record Arrival : Type 0 where
  pub domain : String
  pub filename : Option String
  pub source_url : Option String
  pub fetched_at : Option ℕ

-- A document that counts against the unique index on live object keys.
abbrev pub is_live : String → Document → Bool
is_live key d = d.object_key == key && d.superseded_by == none

unfoldable pub live_in : String → List Document → Option Document
live_in key [] = none
live_in key (d ∷ ds) = if is_live key d then some d else live_in key ds

-- `live_document_for`
unfoldable pub live_document_for : String → World → Option Document
unfolding live_in
live_document_for key w = live_in key w.documents

-- The insert of a live document, which `uq_documents_live_object_key` may refuse.
unfoldable pub insert_document : Document → Db (Unit {0})
unfolding live_document_for
insert_document d = do
  taken ← gets (live_document_for d.object_key)
  elim taken [
    | some _ ↦ raise integrity_error
    | none ↦ modify (λ w. record w { documents = w.documents ++ d ∷ [] })
  ]

unfoldable pub winner_or_raise : Option Document → Db Document
winner_or_raise (some d) = pure d
winner_or_raise none = raise integrity_error

-- `except Exception: if wrote is WROTE: store.delete(key); raise`
unfoldable pub undo_write :
    PutResult → String → Outcome Exc (Unit {0}) × World → Outcome Exc (Unit {0}) × World
undo_write r key (ok u, w) = (ok u, w)
undo_write wrote key (err e, w) = (err e, record w { objects = Objects.delete key w.objects })
undo_write r key (err e, w) = (err e, w)

module _ (h : Host) where
  unfoldable pub transition : ℕ → State → String → Fields → Db (Option AuditRecord)
  unfolding current_state is_allowed
  transition document_id to_state step payload = do
    frm ← gets (current_state document_id)
    if frm == some to_state then pure none else do
      require (is_allowed frm to_state) value_error
      r ← append h document_id frm to_state step payload
      pure (some r)

  abbrev optional_field : String → Option String → Fields → Fields
  optional_field k none fs = fs
  optional_field k (some s) fs = put k (str s) fs

  abbrev iso : Option ℕ → Option String
  iso none = none
  iso (some t) = some (h.isoformat_given t)

  unfoldable pub register_payload : Arrival → Option String → Fields
  unfolding put str_or_null
  register_payload a source_sha256 = optional_field "fetched_at" (iso a.fetched_at) (
      optional_field "source_url" a.source_url
        (field "domain" (str a.domain) (field "source_sha256" (str_or_null source_sha256) end)))

  unfoldable pub register : String → Arrival → Option String → Db Document
  unfolding draw_id insert_document
  register object_key a source_sha256 = do
    i ← draw_id
    let doc : Document = record {
      id = i;
      object_key = object_key;
      filename = a.filename;
      superseded_by = none;
      source_url = a.source_url;
      fetched_at = a.fetched_at;
      source_sha256 = source_sha256;
    }
    insert_document doc
    transition i registered "register" (register_payload a source_sha256)
    pure doc

  -- `register_live`; `meanwhile` is what other sessions commit between the look-up and the insert.
  unfoldable pub register_live : (World → World) → String → Arrival → Option String → Db Document
  unfolding live_document_for winner_or_raise
  register_live meanwhile object_key a source_sha256 = do
    existing ← gets (live_document_for object_key)
    elim existing [
      | some d ↦ pure d
      | none ↦ do
        modify meanwhile
        catch_integrity (savepoint (register object_key a source_sha256))
            (do winner ← gets (live_document_for object_key); winner_or_raise winner)
    ]

  -- The dossier that an ingest names, if it names one.
  unfoldable pub file_in : Option String → ℕ → Db (Unit {0})
  file_in none i = pure tt
  file_in (some dossier) i =
      if dossier == "" then pure tt else do d ← ensure dossier; add h d.id i "ingest" none; pure tt

  unfoldable pub ingest : (World → World) → Bytes → Option String → Arrival → Db Document
  unfolding write_original file_in undo_write
  ingest meanwhile pdf_bytes dossier a = do
    let digest = h.sha256_bytes pdf_bytes
    let key = append_string "documents/" digest
    doc ← register_live meanwhile key a (some digest)
    put_result ← write_original key pdf_bytes
    λ w. undo_write put_result key (file_in dossier doc.id w)
    pure doc

-- A text of a record's payload.
abbrev pub text_field : String → Fields → Option String
text_field k fs = elim (get k fs) [ some (str s) ↦ some s | _ ↦ none ]

-- The first record of the document's registration.
unfoldable pub registration : ℕ → List AuditRecord → Option AuditRecord
registration i [] = none
registration i (r ∷ rs) =
    if r.document_id == i && r.step == "register" then some r else registration i rs

unfoldable pub document_domain : ℕ → World → String
unfolding registration get
document_domain i w = elim (registration i w.trail) [
  | none ↦ default_domain
  | some r ↦ elim (text_field "domain" r.payload) [
    | none ↦ default_domain
    | some d ↦ if d == "" then default_domain else d
  ]
]

-- The latest (re)anonymisation of the document.
abbrev pub is_anonymization : ℕ → AuditRecord → Bool
is_anonymization i r = r.document_id == i && (r.step == "anonymize" || r.step == "reanonymize")

unfoldable pub last_anonymization_field : String → ℕ → World → Option String
unfolding get latest
last_anonymization_field k i w = elim (latest (is_anonymization i) w.trail) [
  | none ↦ none
  | some r ↦ text_field k r.payload
]

unfoldable pub lists_hash_of : ℕ → World → Option String
unfolding last_anonymization_field
lists_hash_of = last_anonymization_field "lists_hash"

unfoldable pub text_source_of : ℕ → World → Option String
unfolding last_anonymization_field
text_source_of = last_anonymization_field "text_source"

-- `dossiers_of`
unfoldable pub dossiers_of : ℕ → World → List ℕ
dossiers_of i w = map (λ m. m.0) (keep (λ (m : ℕ × ℕ). m.1 == i) w.members)

-- `get_anonymized_text`
unfoldable pub anonymized_text : ℕ → List (ℕ × String) → Option String
anonymized_text i [] = none
anonymized_text i ((j, t) ∷ ts) = if j == i then some t else anonymized_text i ts

-- `session.merge(DocumentText(…))`
unfoldable pub set_text : ℕ → String → List (ℕ × String) → List (ℕ × String)
set_text i t [] = (i, t) ∷ []
set_text i t ((j, u) ∷ ts) = if j == i then (i, t) ∷ ts else (j, u) ∷ set_text i t ts
