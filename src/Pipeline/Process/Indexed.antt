-- ===== src/Pipeline/Process/Indexed.antt =====
-- A document that is anonymised ends in the index, under the text that is stored for it, where the
-- services answer.
use Prim.Native.String.{count}
use wordsworth.Prelude.{
  length, ℕ, suc, max, String, ◌≡◌, refl, true, none, some, List, [], ◌∷◌, nat_eq, ok, arith, ap,
  sym, subst, ◌∙◌, ◌-◌, Runs, Runs-bind, Runs-result, pure, gets, ◌>>◌, beq_refl,
}
use wordsworth.Json.{Fields, num, end, field}
use wordsworth.States.{anonymized, indexed, is_allowed}
use wordsworth.World.{World, Db, Document, IndexEntry, find_document}
use wordsworth.Audit.{Host, append, current_state}
use wordsworth.Retry.{after_attempt, retry_from, retry_transient}
use wordsworth.Passages.{split}
use wordsworth.Index
use wordsworth.Index.Laws.{lookup-put}
use wordsworth.Pipeline.{transition, anonymized_text, dossiers_of}
use wordsworth.Pipeline.Transitions.{current_state-transition, transition_moves}
use wordsworth.Pipeline.Services.{Services, running, call, object_key_of}
use wordsworth.Pipeline.Process.{
  profile_step, extract_step, anonymize_step, write_text, embed_each, index_entry, index_text,
  index_step, process,
}

module _ {A : Type 0} (fn : Db A) (attempts delay : ℕ) (what : String) where
  -- A call that succeeds is not made again.
  pub retry_transient-ok :
      (w v : World) (a : A)
      → fn w ≡ (ok a, v)
      → retry_transient fn attempts delay what w ≡ (ok a, v)
  unfolding retry_transient retry_from after_attempt
  retry_transient-ok w v a e =
      let n : max 1 attempts ≡ suc (max 1 attempts - 1) = omega arith in
      subst (λ k. retry_from fn (max 1 attempts) delay what k 0 w ≡ (ok a, v)) (sym n)
        (rw (ap (λ r. r.0) e, ap (λ r. r.1) e) refl)

  pub Runs-retry :
      (P : World → Type 0) (Q : A → World → Type 0)
      → Runs P fn Q
      → Runs P (retry_transient fn attempts delay what) Q
  Runs-retry P Q r = record {
    runs = λ w p. let (a, v, e, q) = r.runs w p in (a, v, retry_transient-ok w v a e, q);
  }

module _ (d : ℕ) (doc : Document) (text : String) where
  -- The document is there, anonymised, and its text is stored.
  pub record IsReady (w : World) : Type 0 where
    pub found : find_document d w.documents ≡ some doc
    pub in_state : current_state d w ≡ some anonymized
    pub stored : anonymized_text d w.texts ≡ some text

  -- The document's entry in the index has its stored text.
  pub record IsSearchable (w : World) : Type 0 where
    pub in_state : current_state d w ≡ some indexed
    pub stored : anonymized_text d w.texts ≡ some text
    pub entry : IndexEntry
    pub found : Index.lookup d w.index ≡ some entry
    pub same_text : entry.text ≡ text

  -- Calls of the services do not matter to it.
  IsReady-calls : (w : World) (n : ℕ) → IsReady w → IsReady (record w { calls = n })
  unfolding current_state
  IsReady-calls w n r = record { found = r.found; in_state = r.in_state; stored = r.stored }

  module _ (h : Host) (sv : Services) (vector : String → List ℕ)
      (embeds : (n : ℕ) (s : String) → sv.embed n s ≡ ok (vector s))
      (reaches : (n : ℕ) → sv.index_up n ≡ ok tt) where
    embed_call-Runs : (s : String) → Runs IsReady (call (λ n. sv.embed n s)) (λ v w. IsReady w)
    embed_call-Runs s = record {
      runs = λ w r. (
        vector s,
        record w { calls = suc w.calls },
        rw (embeds w.calls s) refl,
        IsReady-calls w (suc w.calls) r,
      );
    }

    embed-Runs :
        (what s : String)
        → Runs IsReady
            (retry_transient (call (λ n. sv.embed n s)) sv.retry_attempts sv.retry_base_delay what)
            (λ v w. IsReady w)
    embed-Runs what s =
        Runs-retry (call (λ n. sv.embed n s)) sv.retry_attempts sv.retry_base_delay what IsReady
          (λ v w. IsReady w) (embed_call-Runs s)

    embed_each-Runs : (ps : List String) → Runs IsReady (embed_each h sv ps) (λ vs w. IsReady w)
    unfolding embed_each
    embed_each-Runs [] = record { runs = λ w r. ([], w, refl, r) }
    embed_each-Runs (p ∷ ps) =
        Runs-bind
          (retry_transient (call (λ n. sv.embed n p)) sv.retry_attempts sv.retry_base_delay
            "passage_embed")
          _ (embed-Runs "passage_embed" p)
          λ v.
            Runs-bind (embed_each h sv ps) (λ vs. pure (v ∷ vs)) (embed_each-Runs ps)
              λ vs. record { runs = λ w r. (v ∷ vs, w, refl, r) }

    -- The entry is written; the document's state is what it was.
    record IsWritten (e : IndexEntry) (w : World) : Type 0 where
      in_state : current_state d w ≡ some anonymized
      stored : anonymized_text d w.texts ≡ some text
      found : Index.lookup d w.index ≡ some e

    write-Runs :
        (e : IndexEntry)
        → e.document_id ≡ d
        → Runs IsReady (index_entry h sv e) (λ u w. IsWritten e w)
    unfolding index_entry current_state
    write-Runs e same = record {
      runs = λ w r. (
        tt,
        record w { calls = suc w.calls; index = Index.put e w.index },
        rw (reaches w.calls) refl,
        record {
          in_state = r.in_state;
          stored = r.stored;
          found = lookup-put e d w.index ∙ rw (same, beq_refl d) refl;
        },
      );
    }

    key-Runs : Runs IsReady (object_key_of d) (λ k w. IsReady w)
    unfolding object_key_of
    key-Runs = record { runs = λ w r. (doc.object_key, w, rw (r.found, object_key_of) refl, r) }

    anonymized_edge : is_allowed (some anonymized) indexed ≡ true
    unfolding is_allowed
    anonymized_edge = refl

    transition-Runs :
        (e : IndexEntry) (p : Fields)
        → e.text ≡ text
        → Runs
            (IsWritten e)
            (transition h d indexed "index" p >> pure (running (some indexed) none))
            (λ q w. IsSearchable w × (q ≡ running (some indexed) none))
    unfolding append
    transition-Runs e p same = record {
      runs = λ w r.
          let edge : is_allowed (current_state d w) indexed ≡ true =
            rw (r.in_state) anonymized_edge in
          let moved = transition_moves h d indexed "index" p w edge in
          (
            running (some indexed) none,
            (transition h d indexed "index" p w).1,
            rw moved refl,
            (
              record {
                in_state =
                    current_state-transition h d indexed "index" p w d ∙ rw (edge, beq_refl d) refl;
                stored = rw moved (r.stored);
                entry = e;
                found = rw moved (r.found);
                same_text = same;
              },
              refl,
            ),
          );
    }

    -- What follows the passages' vectors.
    rest-Runs :
        (v : List ℕ) (ps : List (List ℕ))
        → Runs IsReady
            (write_text h sv d text v ps)
            (λ q w. IsSearchable w × (q ≡ running (some indexed) none))
    unfolding write_text
    rest-Runs v ps = Runs-bind (object_key_of d) _ key-Runs λ key.
        Runs-bind (gets (dossiers_of d)) _ (record { runs = λ w r. (dossiers_of d w, w, refl, r) })
          λ ds.
            let e : IndexEntry = record {
              document_id = d;
              text = text;
              object_key = key;
              vector = v;
              dossiers = ds;
              passages = ps;
              topics = [];
            } in
            Runs-bind
              (retry_transient (index_entry h sv e) sv.retry_attempts sv.retry_base_delay "index")
              (λ u.
                transition h d indexed "index"
                  (field "chars" (num (count text)) (field "dim" (num (length v)) end))
                >> pure (running (some indexed) none))
              (Runs-retry (index_entry h sv e) sv.retry_attempts sv.retry_base_delay "index" IsReady
                (λ u w. IsWritten e w) (write-Runs e refl))
              λ u. transition-Runs e _ refl

    pub index_text-Runs :
        Runs IsReady
          (index_text h sv d text)
          (λ q w. IsSearchable w × (q ≡ running (some indexed) none))
    unfolding index_text
    index_text-Runs =
        Runs-bind
          (retry_transient (call (λ n. sv.embed n text)) sv.retry_attempts sv.retry_base_delay
            "embed")
          _ (embed-Runs "embed" text)
          λ v.
            Runs-bind (embed_each h sv (split text)) (write_text h sv d text v)
              (embed_each-Runs (split text)) (rest-Runs v)

    process-Runs :
        (threshold : ℕ)
        → Runs IsReady (process h sv d threshold) (λ s w. IsSearchable w × (s ≡ some indexed))
    unfolding process profile_step extract_step anonymize_step index_step
    process-Runs threshold = record {
      runs = λ w r.
          let (q, v, e, s) = index_text-Runs.runs w r in
          (some indexed, v, rw (r.in_state, r.stored, e, s.1) refl, (s.0, refl));
    }

-- A run of `process` from `anonymized`, where the embedder and the index answer, returns `indexed`;
-- then the document is in that state, and its entry in the index has the text that is stored for it.
pub process-IsSearchable :
    (h : Host) (sv : Services) (vector : String → List ℕ)
    → ((n : ℕ) (s : String) → sv.embed n s ≡ ok (vector s))
    → ((n : ℕ) → sv.index_up n ≡ ok tt)
    → (d : ℕ) (doc : Document) (text : String) (threshold : ℕ) (w : World)
    → find_document d w.documents ≡ some doc
    → current_state d w ≡ some anonymized
    → anonymized_text d w.texts ≡ some text
    → ((process h sv d threshold w).0 ≡ ok (some indexed))
      × IsSearchable d doc text (process h sv d threshold w).1
process-IsSearchable h sv vector embeds reaches d doc text threshold w found at stored =
    let (s, returned, (searchable, same)) =
      Runs-result (process h sv d threshold) w
        (process-Runs d doc text h sv vector embeds reaches threshold)
        (record { found = found; in_state = at; stored = stored }) in
    (returned ∙ ap ok same, searchable)
