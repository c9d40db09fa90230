-- ===== src/World.antt =====
-- The rows of src/wordsworth/models.py, the object store and the search index that the operations
-- work on, and the exceptions that they raise. One `World` is what a session and the services behind
-- it hold at one moment. Ids stand for the uuids, in the order in which they are drawn.
use wordsworth.Prelude.{
  ℕ, suc, String, Option, none, some, List, [], ◌∷◌, Exec, Outcome, if◌then◌else◌, ◌==◌, nat_eq,
}
use wordsworth.Json.{Fields}
use wordsworth.States.{State}

abbrev pub Bytes : Type 0
Bytes = List ℕ

-- An HTTP status as an exception carries it; `unreadable` is one that `int` refuses.
pub data HttpStatus : Type 0 where
  status : ℕ → HttpStatus
  unreadable : HttpStatus

-- The exception classes that the code tells apart; messages are not modelled.
pub data Exc : Type 0 where
  value_error type_error key_error extraction_error profiling_error : Exc
  dossier_error supersession_error deletion_error role_error : Exc
  anonymization_invariant_error anonymization_engine_error embedding_unavailable : Exc
  connection_error timeout_error os_error transport_error : Exc
  integrity_error missing_audit_stream : Exc
  -- any other class: its lower-cased name, its `status_code`, and that of its `response`
  other : String → Option HttpStatus → Option HttpStatus → Exc

pub record Document : Type 0 where
  pub id : ℕ
  pub object_key : String
  pub filename : Option String
  pub superseded_by : Option ℕ
  pub source_url : Option String
  pub fetched_at : Option ℕ
  pub source_sha256 : Option String

pub record AuditRecord : Type 0 where
  pub seq : ℕ
  pub document_id : ℕ
  pub from_state : Option State
  pub to_state : State
  pub ts : ℕ
  pub step : String
  pub payload : Fields
  pub prev_hash : String
  pub hash : String

pub record Dossier : Type 0 where
  pub id : ℕ
  pub name : String

pub record PiiMapping : Type 0 where
  pub pseudonym : String
  pub key_id : String
  pub ciphertext : Bytes
  pub nonce : Bytes
  -- the normalisation profile of the value
  pub norm_version : Option String

pub record GrantRow : Type 0 where
  pub grant_id : ℕ
  pub document_id : Option ℕ

-- One document in the search index.
pub record IndexEntry : Type 0 where
  pub document_id : ℕ
  pub text : String
  pub object_key : String
  pub vector : List ℕ
  pub dossiers : List ℕ
  pub passages : List (List ℕ)
  pub topics : List String

-- An event of the key-lifecycle stream.
pub record LifecycleEvent : Type 0 where
  pub action : String
  pub actor : String
  pub payload : Fields

-- A line that `log_retry` writes: the attempt, of how many, and the delay if one follows.
pub record RetryLine : Type 0 where
  pub what : String
  pub attempt : ℕ
  pub attempts : ℕ
  pub delay : Option ℕ

pub record World : Type 0 where
  pub documents : List Document
  pub trail : List AuditRecord
  pub texts : List (ℕ × String)
  pub pseudonyms : List (ℕ × String)
  pub dossiers : List Dossier
  -- (dossier id, document id)
  pub members : List (ℕ × ℕ)
  -- (topic id, dossier id)
  pub topics : List (ℕ × ℕ)
  pub mappings : List PiiMapping
  pub grants : List GrantRow
  pub lifecycle : List LifecycleEvent
  pub objects : List (String × Bytes)
  pub index : List IndexEntry
  pub next_seq : ℕ
  pub next_id : ℕ
  -- the readings that the clock will give, and how many were taken
  pub clock : ℕ → ℕ
  pub reads : ℕ
  -- how often an outside service was called, what was slept, and what was logged of retries
  pub calls : ℕ
  pub slept : List ℕ
  pub retries : List RetryLine

abbrev pub Db : Type 0 → Type 0
Db A = Exec Exc World A

-- `datetime.now(timezone.utc)`
unfoldable pub now : Db ℕ
now w = (Outcome.ok (w.clock w.reads), record w { reads = suc w.reads })

-- A fresh uuid.
unfoldable pub draw_id : Db ℕ
draw_id w = (Outcome.ok w.next_id, record w { next_id = suc w.next_id })

-- `session.get(Document, id)`
unfoldable pub find_document : ℕ → List Document → Option Document
find_document i [] = none
find_document i (d ∷ ds) = if d.id == i then some d else find_document i ds

-- A row of the session changed in place.
unfoldable pub set_document : ℕ → (Document → Document) → List Document → List Document
set_document i f [] = []
set_document i f (d ∷ ds) = (if d.id == i then f d else d) ∷ set_document i f ds

-- What a rollback to a savepoint restores: the tables. Sequences, the clock and the services
-- outside the database go on from where they are.
abbrev pub rollback : World → World → World
rollback before after = record after {
  documents = before.documents;
  trail = before.trail;
  texts = before.texts;
  pseudonyms = before.pseudonyms;
  dossiers = before.dossiers;
  members = before.members;
  topics = before.topics;
  mappings = before.mappings;
  grants = before.grants;
  lifecycle = before.lifecycle;
}

abbrev pub end_savepoint : {A : Type 0} → World → Outcome Exc A × World → Outcome Exc A × World
end_savepoint before (Outcome.ok a, after) = (Outcome.ok a, after)
end_savepoint before (Outcome.err e, after) = (Outcome.err e, rollback before after)

-- `with session.begin_nested(): …`
abbrev pub savepoint : {A : Type 0} → Db A → Db A
savepoint m w = end_savepoint w (m w)

abbrev pub handle : {A : Type 0} → Db A → Outcome Exc A × World → Outcome Exc A × World
handle k (Outcome.err integrity_error, w) = k w
handle k r = r

-- `try: … except IntegrityError: …`
abbrev pub catch_integrity : {A : Type 0} → Db A → Db A → Db A
catch_integrity m k w = handle k (m w)
