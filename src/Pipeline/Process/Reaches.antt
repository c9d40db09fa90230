-- ===== src/Pipeline/Process/Reaches.antt =====
-- One run of `process` takes a document all the way to the index, from wherever the run before it
-- stopped, where the services answer.
use wordsworth.Prelude.{
  ℕ, suc, ◌*◌, String, ◌≡◌, refl, true, false, ◌&&◌, none, some, Option, List, [], ◌∷◌, nat_eq,
  string_eq, option_eq, ltb, leb, length, Runs-same, ok, arith, ap, ◌∙◌, Runs, Runs-outcome,
  Runs-bind, Runs-known, contains, Runs-result, pure, ◌>>=◌, beq_refl,
}
use wordsworth.Json.{Fields}
use wordsworth.States.{
  State, registered, extractable, extracted, anonymized, indexed, is_allowed, state_eq,
}
use wordsworth.World.{World, Db, Bytes, Document, find_document}
use wordsworth.Audit.{Host, append, current_state}
use wordsworth.Retry.{retry_transient}
use wordsworth.Audit.Records.{current_state-append}
use wordsworth.Objects
use wordsworth.Tokens.Registry
use wordsworth.Pipeline.{transition, anonymized_text, set_text}
use wordsworth.Pipeline.Transitions.{transition_moves}
use wordsworth.Pipeline.Services.{
  Services, Anonymized, Metric, Progress, running, call, read_original, object_key_of, is_sealed,
}
use wordsworth.Pipeline.Process.{
  profile_pdf, profiled, profile_step, extract_step, text_in_hand, extracted_to, extract_or_fail,
  extract_text, anonymize_payload, anonymize_step, anonymized_from, store_anonymized, index_step,
  index_text, process, result_of,
}
use wordsworth.Pipeline.Process.Indexed.{IsReady, IsSearchable, retry_transient-ok, index_text-Runs}

-- What a run does once the text was extracted.
after_extraction : Host → Services → ℕ → Progress → Db (Option State)
after_extraction h sv d p = do
  p ← anonymize_step h sv d p
  p ← index_step h sv d p
  pure (result_of h sv p)

anonymized_text-set_text :
    (d : ℕ) (t : String) (ts : List (ℕ × String)) → anonymized_text d (set_text d t ts) ≡ some t
unfolding anonymized_text set_text
anonymized_text-set_text d t [] = ground arith
anonymized_text-set_text d t ((e, u) ∷ ts) = ground (arith, anonymized_text-set_text d t ts)

module _ (h : Host) (sv : Services) (d : ℕ) (doc : Document) (b : Bytes) where
  -- The document is there in the state, and so is its original.
  record IsStored (s : State) (w : World) : Type 0 where
    found : find_document d w.documents ≡ some doc
    in_state : current_state d w ≡ some s
    original : Objects.get_raw doc.object_key w.objects ≡ some b

  moves-Runs :
      (s to : State) (step : String) (p : Fields)
      → is_allowed (some s) to ≡ true
      → Runs (IsStored s) (transition h d to step p) (λ r w. IsStored to w)
  unfolding append
  moves-Runs s to step p edge = Runs-outcome (transition h d to step p) λ w x.
      let goes : is_allowed (current_state d w) to ≡ true =
        ap (λ o. is_allowed o to) x.in_state ∙ edge in
      rw (transition_moves h d to step p w goes) (
        _,
        refl,
        record {
          found = x.found;
          in_state =
              current_state-append h d (current_state d w) to step p w d ∙ rw (beq_refl d) refl;
          original = x.original;
        },
      )

  key_is : (s : State) (w : World) → IsStored s w → object_key_of d w ≡ (ok doc.object_key, w)
  unfolding object_key_of
  key_is s w x = rw (object_key_of, x.found) refl

  original_is :
      (s : State) (w : World)
      → is_sealed b ≡ false
      → IsStored s w
      → read_original doc.object_key w ≡ (ok b, w)
  unfolding read_original
  original_is s w plain x = rw (read_original, x.original, plain) refl

  module _ (plain : is_sealed b ≡ false) (threshold chars pages : ℕ) (t : String) (r : Anonymized)
      (measures : sv.measure b ≡ some (chars, pages))
      (dense : (ltb 0 pages && leb (threshold * pages) chars) ≡ true)
      (extracts : sv.positioned_text b ≡ some t)
      (anonymizes : (n : ℕ) → sv.anonymize n t ≡ ok r) where
    metric : Metric
    metric = record { chars = chars; pages = pages; size = length b; born_digital = true }

    profile_is : profile_pdf h sv b threshold ≡ ok metric
    unfolding profile_pdf metric
    profile_is = rw (profile_pdf, measures, dense) refl

    -- Each step of a run, from where the step before it leaves the document.
    profile-Runs :
        Runs
          (IsStored registered)
          (profile_step h sv d threshold (running (some registered) none))
          (λ p w. IsStored extractable w × (p ≡ running (some extractable) none))
    unfolding profile_step profiled metric is_allowed
    profile-Runs =
        Runs-same (profile_step h sv d threshold (running (some registered) none))
          (profiled h sv d (ok metric))
          (λ w x. rw (key_is registered w x, original_is registered w plain x, profile_is) refl)
          (Runs-bind (transition h d extractable "profile" _) _
            (moves-Runs registered extractable "profile" _ refl)
            λ u. record { runs = λ w x. (_, w, refl, (x, refl)) })

    extract_is : extract_text h sv b ≡ ok t
    unfolding extract_text
    extract_is = rw (extract_text, extracts) refl

    in_hand : (s : State) (w : World) → IsStored s w → text_in_hand h sv d none w ≡ (ok (some t), w)
    unfolding text_in_hand extract_or_fail
    in_hand s w x = rw (key_is s w x, original_is s w plain x, extract_or_fail, extract_is) refl

    extract-Runs :
        Runs
          (IsStored extractable)
          (extract_step h sv d (running (some extractable) none))
          (λ p w. IsStored extracted w × (p ≡ running (some extracted) (some t)))
    unfolding extract_step extracted_to is_allowed
    extract-Runs =
        Runs-same (extract_step h sv d (running (some extractable) none))
          (extracted_to h sv d (some t)) (λ w x. rw (in_hand extractable w x) refl)
          (Runs-bind (transition h d extracted "extract" _) _
            (moves-Runs extractable extracted "extract" _ refl)
            λ u. record { runs = λ w x. (_, w, refl, (x, refl)) })

    store_anonymized-Runs :
        Runs (IsStored extracted) (store_anonymized h sv d r) (λ u w. IsReady d doc r.text w)
    unfolding store_anonymized is_allowed append current_state
    store_anonymized-Runs = Runs-outcome (store_anonymized h sv d r) λ w x.
        let stored : World = record w {
          texts = set_text d r.text w.texts;
          pseudonyms = Registry.register d r.text w.pseudonyms;
        } in
        let goes : is_allowed (current_state d stored) anonymized ≡ true =
          ap (λ o. is_allowed o anonymized) x.in_state in
        rw (transition_moves h d anonymized "anonymize" (anonymize_payload h sv r) stored goes) (
          tt,
          refl,
          record {
            found = x.found;
            in_state =
                current_state-append h d (current_state d stored) anonymized "anonymize"
                  (anonymize_payload h sv r) stored d
                ∙ rw (beq_refl d) refl;
            stored = anonymized_text-set_text d r.text w.texts;
          },
        )

    called : World → World
    called w = record w { calls = suc w.calls }

    called-IsStored : (s : State) (w : World) → IsStored s w → IsStored s (called w)
    unfolding called current_state
    called-IsStored s w x = record { found = x.found; in_state = x.in_state; original = x.original }

    answered :
        (w : World)
        → retry_transient
            (call (λ n. sv.anonymize n t))
            sv.retry_attempts
            sv.retry_base_delay
            "anonymize"
            w
          ≡ (ok r, called w)
    unfolding called
    answered w =
        retry_transient-ok (call (λ n. sv.anonymize n t)) sv.retry_attempts sv.retry_base_delay
          "anonymize" w (called w) r (rw (anonymizes w.calls) refl)

    anonymized-Runs :
        Runs
          (IsStored extracted)
          (anonymized_from h sv d (some t))
          (λ p w. IsReady d doc r.text w × (p ≡ running (some anonymized) (some t)))
    unfolding anonymized_from
    anonymized-Runs = Runs-outcome (anonymized_from h sv d (some t)) λ w x.
        let (u, done, y) =
          Runs-result (store_anonymized h sv d r) (called w) store_anonymized-Runs
            (called-IsStored extracted w x) in
        (
          running (some anonymized) (some t),
          rw (answered w, done) refl,
          (rw (answered w, done) y, refl),
        )

    -- The text that a run has in hand, if it has one, is the document's.
    IsInHand : Option String → Type 0
    IsInHand none = Unit {0}
    IsInHand (some s) = s ≡ t

    in_hand_any :
        (o : Option String) (w : World)
        → IsInHand o
        → IsStored extracted w
        → text_in_hand h sv d o w ≡ (ok (some t), w)
    unfolding IsInHand text_in_hand
    in_hand_any none w i x = in_hand extracted w x
    in_hand_any (some s) w i x = rw i refl

    anonymize-Runs :
        (o : Option String)
        → IsInHand o
        → Runs
            (IsStored extracted)
            (anonymize_step h sv d (running (some extracted) o))
            (λ p w. IsReady d doc r.text w × (p ≡ running (some anonymized) (some t)))
    unfolding anonymize_step
    anonymize-Runs o i =
        Runs-same (anonymize_step h sv d (running (some extracted) o))
          (anonymized_from h sv d (some t)) (λ w x. rw (in_hand_any o w i x) refl) anonymized-Runs

    module _ (vector : String → List ℕ)
        (embeds : (n : ℕ) (s : String) → sv.embed n s ≡ ok (vector s))
        (reaches : (n : ℕ) → sv.index_up n ≡ ok tt) where
      IsDone : Option State → World → Type 0
      IsDone s w = IsSearchable d doc r.text w × (s ≡ some indexed)

      index-Runs :
          Runs
            (IsReady d doc r.text)
            (index_step h sv d (running (some anonymized) (some t)))
            (λ p w. IsSearchable d doc r.text w × (p ≡ running (some indexed) none))
      unfolding index_step
      index-Runs =
          Runs-same (index_step h sv d (running (some anonymized) (some t)))
            (index_text h sv d r.text) (λ w x. rw x.stored refl)
            (index_text-Runs d doc r.text h sv vector embeds reaches)

      from_extracted :
          (o : Option String)
          → IsInHand o
          → Runs (IsStored extracted) (after_extraction h sv d (running (some extracted) o)) IsDone
      unfolding after_extraction IsDone
      from_extracted o i =
          Runs-known (anonymize_step h sv d (running (some extracted) o)) _
            (running (some anonymized) (some t)) (anonymize-Runs o i)
            (Runs-known (index_step h sv d (running (some anonymized) (some t))) _
              (running (some indexed) none) index-Runs
              (record { runs = λ w x. (_, w, refl, (x, refl)) }))

      from_extractable :
          Runs
            (IsStored extractable)
            (extract_step h sv d (running (some extractable) none) >>= after_extraction h sv d)
            IsDone
      unfolding IsInHand
      from_extractable =
          Runs-known (extract_step h sv d (running (some extractable) none)) _
            (running (some extracted) (some t)) extract-Runs (from_extracted (some t) refl)

      from_registered :
          Runs
            (IsStored registered)
            (profile_step h sv d threshold (running (some registered) none) >>= λ p.
              extract_step h sv d p >>= after_extraction h sv d)
            IsDone
      from_registered =
          Runs-known (profile_step h sv d threshold (running (some registered) none)) _
            (running (some extractable) none) profile-Runs from_extractable

      -- The whole run, from each of the states that it may find.
      whole :
          (s : State)
          → contains (registered ∷ extractable ∷ extracted ∷ []) s ≡ true
          → Runs (IsStored s) (process h sv d threshold) IsDone
      unfolding process after_extraction profile_step extract_step IsInHand
      whole registered known =
          Runs-same (process h sv d threshold) _ (λ w x. rw x.in_state refl) from_registered
      whole extractable known =
          Runs-same (process h sv d threshold) _ (λ w x. rw x.in_state refl) from_extractable
      whole extracted known =
          Runs-same (process h sv d threshold) _ (λ w x. rw x.in_state refl)
            (from_extracted none tt)
      whole _ known = absurd (cc known)

-- One run of `process` takes a document from `registered`, `extractable` or `extracted` into the
-- index, with its text anonymised: the original is stored plain, the PDF has a text layer that is
-- dense enough and can be read, and the anonymiser, the embedder and the index answer.
pub process-Reaches :
    (h : Host) (sv : Services) (d : ℕ) (doc : Document) (b : Bytes) (threshold chars pages : ℕ)
    (t : String) (r : Anonymized) (vector : String → List ℕ) (s : State) (w : World)
    → contains (registered ∷ extractable ∷ extracted ∷ []) s ≡ true
    → find_document d w.documents ≡ some doc
    → current_state d w ≡ some s
    → Objects.get_raw doc.object_key w.objects ≡ some b
    → is_sealed b ≡ false
    → sv.measure b ≡ some (chars, pages)
    → (ltb 0 pages && leb (threshold * pages) chars) ≡ true
    → sv.positioned_text b ≡ some t
    → ((n : ℕ) → sv.anonymize n t ≡ ok r)
    → ((n : ℕ) (s : String) → sv.embed n s ≡ ok (vector s))
    → ((n : ℕ) → sv.index_up n ≡ ok tt)
    → ((process h sv d threshold w).0 ≡ ok (some indexed))
      × IsSearchable d doc r.text (process h sv d threshold w).1
unfolding IsDone
process-Reaches h sv d doc b threshold chars pages t r vector s w known found at original plain
      measures dense extracts anonymizes embeds reaches =
    let (o, returned, (searchable, same)) =
      Runs-result (process h sv d threshold) w
        (whole h sv d doc b plain threshold chars pages t r measures dense extracts anonymizes
          vector embeds reaches s known)
        (record { found = found; in_state = at; original = original }) in
    (returned ∙ ap ok same, searchable)
