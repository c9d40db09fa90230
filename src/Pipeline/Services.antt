-- ===== src/Pipeline/Services.antt =====
-- What a run of `process` takes from the services beside the database (src/wordsworth/anonymizer.py,
-- profiling.py, object_store.py): the PDF library, the anonymiser, the embedder and the reach of the
-- index are the parameter `Services`; each answer of an outside service may depend on how many calls
-- went before. Bytes are read from a plain object store.
use wordsworth.Prelude.{
  ℕ, suc, String, Bool, false, ◌&&◌, Option, none, some, List, [], ◌∷◌, ◌==◌, nat_eq, string_eq,
  option_eq, ok, err, Outcome, if◌then◌else◌,
}
use wordsworth.Json.{num, Fields, end, put}
use wordsworth.States.{State, state_eq}
use wordsworth.World.{Db, Exc, Bytes, find_document, other}
use wordsworth.Objects

-- `AnonymizationResult`
pub record Anonymized : Type 0 where
  pub text : String
  pub counts : List (String × ℕ)
  pub detections : Fields
  pub lists_hash : Option String

pub record Services : Type 0 where
  -- pages and characters of a PDF, unless the parser crashes
  pub measure : Bytes → Option (ℕ × ℕ)
  -- `positioned_text`, unless it crashes
  pub positioned_text : Bytes → Option String
  -- the anonymiser's answer to its call, by the number of the call
  pub anonymize : ℕ → String → Outcome Exc Anonymized
  -- the embedder's
  pub embed : ℕ → String → Outcome Exc (List ℕ)
  -- whether the index can be reached at the call
  pub index_up : ℕ → Outcome Exc (Unit {0})
  pub retry_attempts : ℕ
  pub retry_base_delay : ℕ

-- `ObjectStoreError`, and its subclass `SealedObjectError`
abbrev pub object_store_error : Exc
object_store_error = other "objectstoreerror" none none

abbrev pub sealed_object_error : Exc
sealed_object_error = other "sealedobjecterror" none none

-- `TEXT_SOURCE`
abbrev pub text_source : String
text_source = "pdfium-v1"

abbrev pub counts_payload : List (String × ℕ) → Fields
counts_payload [] = end
counts_payload ((k, n) ∷ rest) = put k (num n) (counts_payload rest)

-- A call of an outside service, counted.
abbrev pub call : {A : Type 0} → (ℕ → Outcome Exc A) → Db A
call answer w = (answer w.calls, record w { calls = suc w.calls })

-- `_is_sealed`: the bytes begin with `WWENC`
unfoldable pub is_sealed : Bytes → Bool
is_sealed (a ∷ b ∷ c ∷ d ∷ e ∷ rest) = a == 87 && b == 87 && c == 69 && d == 78 && e == 67
is_sealed _ = false

-- `read_original` from a plain store
unfoldable pub read_original : String → Db Bytes
unfolding is_sealed
read_original key w = elim (Objects.get_raw key w.objects) [
  | none ↦ (err object_store_error, w)
  | some b ↦ if is_sealed b then (err sealed_object_error, w) else (ok b, w)
]

-- `session.get(Document, id).object_key`
unfoldable pub object_key_of : ℕ → Db String
unfolding find_document
object_key_of d w = elim (find_document d w.documents) [
  | none ↦ (err (other "attributeerror" none none), w)
  | some doc ↦ (ok doc.object_key, w)
]

-- What `profile_pdf` returns.
pub record Metric : Type 0 where
  pub chars : ℕ
  pub pages : ℕ
  pub size : ℕ
  pub born_digital : Bool

-- Where a run of `process` is: it returned a state, or goes on from one, with the clear text if it
-- was extracted already.
pub data Progress : Type 0 where
  finished : State → Progress
  running : Option State → Option String → Progress
