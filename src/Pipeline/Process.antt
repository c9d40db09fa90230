-- ===== src/Pipeline/Process.antt =====
-- `process` of src/wordsworth/pipeline.py: one document from its current state until it rests. The
-- box map is not computed: `process` without a key provider.
pub mod Audited
pub mod Indexed
pub mod Reaches
use wordsworth.Prelude.{
  ℕ, suc, ◌*◌, String, Bool, false, not, ◌&&◌, Option, none, some, List, [], ◌∷◌, ◌==◌, nat_eq,
  string_eq, option_eq, ltb, leb, ok, err, Outcome, pure, gets, modify, ◌>>=◌, ◌>>◌, if◌then◌else◌,
  length,
}
use wordsworth.Json.{str, num, obj, Fields, end, field, put, str_or_null}
use wordsworth.States.{
  State, registered, extractable, unprocessable_ocr, extracted, anonymized, indexed, failed,
  state_eq,
}
use wordsworth.World.{
  Db, Exc, Bytes, IndexEntry, find_document, other, extraction_error, profiling_error,
}
use wordsworth.Audit.{Host, current_state}
use wordsworth.Retry.{retry_transient}
use wordsworth.Tokens.Registry
use wordsworth.Passages.{split}
use Prim.Native.String.{count}
use wordsworth.Objects
use wordsworth.Index
use wordsworth.Pipeline.{transition, dossiers_of, anonymized_text, set_text}
use wordsworth.Pipeline.Services.{
  Anonymized, Services, object_store_error, sealed_object_error, text_source, counts_payload, call,
  is_sealed, read_original, object_key_of, Metric, Progress, finished, running,
}

module _ (h : Host) (sv : Services) where
  unfoldable pub profile_pdf : Bytes → ℕ → Outcome Exc Metric
  profile_pdf b threshold = elim (sv.measure b) [
    | none ↦ err profiling_error
    | some (chars, pages) ↦ ok (record {
      chars = chars;
      pages = pages;
      size = length b;
      born_digital = ltb 0 pages && leb (threshold * pages) chars;
    })
  ]

  unfoldable pub extract_text : Bytes → Outcome Exc String
  extract_text b = elim (sv.positioned_text b) [ none ↦ err extraction_error | some t ↦ ok t ]

  abbrev pub fail_with : ℕ → String → String → Db (Unit {0})
  fail_with d step name = do transition h d failed step (field "error" (str name) end); pure tt

  unfoldable pub profiled : ℕ → Outcome Exc Metric → Db Progress
  profiled d (err e) = do fail_with d "profile" "ProfilingError"; pure (finished failed)
  profiled d (ok m) = do
    let target = if m.born_digital then extractable else unprocessable_ocr
    transition h d target "profile"
        (field "chars" (num m.chars) (field "pages" (num m.pages) (field "bytes" (num m.size) end)))
    pure (running (some target) none)

  unfoldable pub profile_step : ℕ → ℕ → Progress → Db Progress
  unfolding profile_pdf read_original object_key_of profiled
  profile_step d threshold (finished s) = pure (finished s)
  profile_step d threshold (running state text) =
      if not (state == some registered)
      then pure (running state text)
      else do key ← object_key_of d; raw ← read_original key; profiled d (profile_pdf raw threshold)

  -- `_extract_or_fail`
  unfoldable pub extract_or_fail : ℕ → Bytes → Db (Option String)
  unfolding extract_text
  extract_or_fail d b = elim (extract_text b) [
    | ok t ↦ pure (some t)
    | err _ ↦ do fail_with d "extract" "ExtractionError"; pure none
  ]

  -- The text in hand, or the one that the stored bytes give.
  unfoldable pub text_in_hand : ℕ → Option String → Db (Option String)
  unfolding read_original object_key_of extract_or_fail
  text_in_hand d (some t) = pure (some t)
  text_in_hand d none = do key ← object_key_of d; raw ← read_original key; extract_or_fail d raw

  unfoldable pub extracted_to : ℕ → Option String → Db Progress
  extracted_to d none = pure (finished failed)
  extracted_to d (some t) = do
    transition h d extracted "extract" (field "chars" (num (count t)) end)
    pure (running (some extracted) (some t))

  unfoldable pub extract_step : ℕ → Progress → Db Progress
  unfolding text_in_hand extracted_to
  extract_step d (finished s) = pure (finished s)
  extract_step d (running state text) =
      if not (state == some extractable)
      then pure (running state text)
      else do t ← text_in_hand d none; extracted_to d t

  unfoldable pub anonymize_payload : Anonymized → Fields
  unfolding put str_or_null
  anonymize_payload r = put "text_source" (str text_source) (
      put "lists_hash" (str_or_null r.lists_hash)
        (put "detections" (obj r.detections) (counts_payload r.counts)))

  -- What is written once the anonymiser has answered: the text, its tokens, the record.
  unfoldable pub store_anonymized : ℕ → Anonymized → Db (Unit {0})
  unfolding set_text Registry.register anonymize_payload
  store_anonymized d r = do
    modify (λ w. record w {
      texts = set_text d r.text w.texts;
      pseudonyms = Registry.register d r.text w.pseudonyms;
    })
    transition h d anonymized "anonymize" (anonymize_payload r)
    pure tt

  unfoldable pub anonymized_from : ℕ → Option String → Db Progress
  unfolding store_anonymized
  anonymized_from d none = pure (finished failed)
  anonymized_from d (some t) = do
    r ←
        retry_transient (call (λ n. sv.anonymize n t)) sv.retry_attempts sv.retry_base_delay
          "anonymize"
    store_anonymized d r
    pure (running (some anonymized) (some t))

  unfoldable pub anonymize_step : ℕ → Progress → Db Progress
  unfolding text_in_hand anonymized_from
  anonymize_step d (finished s) = pure (finished s)
  anonymize_step d (running state text) =
      if not (state == some extracted)
      then pure (running state text)
      else do t ← text_in_hand d text; anonymized_from d t

  -- `embed_passages`, over the passages
  unfoldable pub embed_each : List String → Db (List (List ℕ))
  embed_each [] = pure []
  embed_each (p ∷ ps) = do
    v ←
        retry_transient (call (λ n. sv.embed n p)) sv.retry_attempts sv.retry_base_delay
          "passage_embed"
    vs ← embed_each ps
    pure (v ∷ vs)

  -- `_index`: one attempt to write the document's entry.
  unfoldable pub index_entry : IndexEntry → Db (Unit {0})
  index_entry e = do call sv.index_up; modify (λ w. record w { index = Index.put e w.index })

  -- What follows the embedding: the entry is written, and the record.
  unfoldable pub write_text : ℕ → String → List ℕ → List (List ℕ) → Db Progress
  unfolding index_entry object_key_of dossiers_of
  write_text d text v ps = do
    key ← object_key_of d
    ds ← gets (dossiers_of d)
    retry_transient
        (index_entry (record {
          document_id = d;
          text = text;
          object_key = key;
          vector = v;
          dossiers = ds;
          passages = ps;
          topics = [];
        }))
        sv.retry_attempts sv.retry_base_delay "index"
    transition h d indexed "index"
        (field "chars" (num (count text)) (field "dim" (num (length v)) end))
    pure (running (some indexed) none)

  unfoldable pub index_text : ℕ → String → Db Progress
  unfolding embed_each write_text
  index_text d text = do
    v ← retry_transient (call (λ n. sv.embed n text)) sv.retry_attempts sv.retry_base_delay "embed"
    ps ← embed_each (split text)
    write_text d text v ps

  abbrev pub or_empty : Option String → String
  or_empty none = ""
  or_empty (some t) = t

  unfoldable pub index_step : ℕ → Progress → Db Progress
  unfolding index_text anonymized_text
  index_step d (finished s) = pure (finished s)
  index_step d (running state text) =
      if not (state == some anonymized)
      then pure (running state text)
      else do t ← gets (λ w. or_empty (anonymized_text d w.texts)); index_text d t

  abbrev pub result_of : Progress → Option State
  result_of (finished s) = some s
  result_of (running state text) = state

  unfoldable pub process : ℕ → ℕ → Db (Option State)
  unfolding profile_step extract_step anonymize_step index_step
  process d threshold = do
    state ← gets (current_state d)
    p ← profile_step d threshold (running state none)
    p ← extract_step d p
    p ← anonymize_step d p
    p ← index_step d p
    pure (result_of p)
