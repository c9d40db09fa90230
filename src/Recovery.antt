-- ===== src/Recovery.antt =====
-- src/wordsworth/recovery.py: a scanned document gets a text layer and goes back into the pipeline.
-- The OCR engine is the parameter `ocr`, which answers its call by the number of the call; the
-- original is read from a plain store.
pub mod Audited
use Prim.Native.String.{◌++◌ as append_string}
use wordsworth.Prelude.{
  ℕ, String, Bool, true, false, not, ◌&&◌, Option, none, some, ◌==◌, nat_eq, string_eq, option_eq,
  Outcome, ok, err, pure, raise, gets, modify, require, lift, ◌>>=◌, ◌>>◌, if◌then◌else◌,
}
use wordsworth.Json.{str, num, Fields, end, field}
use wordsworth.States.{State, unprocessable_ocr, extractable, superseded, state_eq}
use wordsworth.World.{
  World, Db, Exc, Bytes, Document, find_document, set_document, value_error, integrity_error,
}
use wordsworth.Audit.{Host, append, current_state}
use wordsworth.Objects
use wordsworth.Pipeline.{transition, live_document_for}
use wordsworth.Pipeline.Services.{Services, Metric, call, read_original, object_key_of}
use wordsworth.Pipeline.Process.{profile_pdf}
use wordsworth.Supersession.{supersede}

-- The fields of `metric` that the records carry, before others.
abbrev pub measured : Metric → Fields → Fields
measured m more =
    field "chars" (num m.chars) (field "pages" (num m.pages) (field "bytes" (num m.size) more))

-- Another document that is live for the key.
abbrev pub owner_other : ℕ → Option Document → Option Document
owner_other d none = none
owner_other d (some o) = if o.id == d then none else some o

abbrev is_live_row : Option Document → Bool
is_live_row none = false
is_live_row (some doc) = doc.superseded_by == none

abbrev is_there : Option Document → Bool
is_there none = false
is_there (some o) = true

-- `doc.object_key = new_key` and the flush, which the unique index on live object keys may refuse.
unfoldable pub take_key : ℕ → String → Db (Unit {0})
unfolding live_document_for find_document set_document
take_key d key w =
    if is_live_row (find_document d w.documents)
      && is_there (owner_other d (live_document_for key w))
    then (err integrity_error, w)
    else (
      ok tt,
      record w { documents = set_document d (λ doc. record doc { object_key = key }) w.documents },
    )

module _ (h : Host) where
  -- The document takes the OCR output as its object and goes on.
  unfoldable pub requeue : ℕ → String → String → Metric → Db State
  unfolding take_key
  requeue d old_key new_key m = do
    take_key d new_key
    transition h d extractable "ocr" (
        measured m
          (field "old_object_key" (str old_key) (field "new_object_key" (str new_key) end)))
    pure extractable

  -- What follows an OCR that gave a text layer.
  unfoldable pub rekey : ℕ → String → Bytes → Metric → Db State
  unfolding live_document_for requeue
  rekey d old_key ocr_bytes m = do
    let new_key = append_string "documents/" (h.sha256_bytes ocr_bytes)
    modify (λ w. record w { objects = Objects.put new_key ocr_bytes w.objects })
    owner ← gets (λ w. owner_other d (live_document_for new_key w))
    elim owner [
      | some o ↦ do supersede h none d o.id "ocr" none (some new_key); pure superseded
      | none ↦ requeue d old_key new_key m
    ]

  -- No text layer: the record of the try, and the document stays where it is.
  unfoldable pub still_scanned : ℕ → Metric → Db State
  still_scanned d m = do
    append h d (some unprocessable_ocr) unprocessable_ocr "ocr" (measured m end)
    pure unprocessable_ocr

  unfoldable pub recovered : ℕ → String → Bytes → Metric → Db State
  unfolding rekey still_scanned
  recovered d old_key ocr_bytes m =
      if not m.born_digital then still_scanned d m else rekey d old_key ocr_bytes m

  unfoldable pub recover : Services → (ℕ → Bytes → Outcome Exc Bytes) → ℕ → ℕ → Db State
  unfolding read_original object_key_of profile_pdf recovered
  recover sv ocr threshold d = do
    state ← gets (current_state d)
    require (state == some unprocessable_ocr) value_error
    key ← object_key_of d
    pdf_bytes ← read_original key
    ocr_bytes ← call (λ n. ocr n pdf_bytes)
    m ← lift (profile_pdf h sv ocr_bytes threshold)
    recovered d key ocr_bytes m
