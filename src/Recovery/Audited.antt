-- ===== src/Recovery/Audited.antt =====
-- A recovery keeps the audit trail whole.
use Prim.Native.String.{◌++◌ as append_string}
use wordsworth.Prelude.{
  ℕ, String, ◌≡◌, refl, Option, none, some, Outcome, arith, inl, inr, ◌==◌, nat_eq, string_eq,
  option_eq, Bool-cases, option_beq_iff, Keeps, Keeps-bind, keeps_rules, Leads, Leads-Keeps,
  Leads-bind, pure, gets, modify, lift, ◌>>=◌, ◌>>◌,
}
use wordsworth.States.{unprocessable_ocr, superseded, state_eq}
use wordsworth.World.{World, Db, Exc, Bytes, Document}
use wordsworth.Audit.{Host, append, current_state}
use wordsworth.Audit.Chain.{IsDigest}
use wordsworth.Audit.Lawful.{IsAudited, append-IsAudited}
use wordsworth.Audit.Actions.{Audits, Audits-modify, IsAudited-trail}
use wordsworth.Objects
use wordsworth.Pipeline.{live_document_for}
use wordsworth.Pipeline.Transitions.{transition-Audits}
use wordsworth.Pipeline.Services.{Services, Metric, call, read_original, object_key_of}
use wordsworth.Pipeline.Process.{profile_pdf}
use wordsworth.Supersession.{supersede}
use wordsworth.Supersession.Audited.{supersede-Audits}
use wordsworth.Recovery.{take_key, requeue, rekey, still_scanned, recovered, recover, owner_other}

key_trail : (d : ℕ) (w : World) → (object_key_of d w).1.trail ≡ w.trail
unfolding object_key_of
key_trail d w = ground arith

original_trail : (key : String) (w : World) → (read_original key w).1.trail ≡ w.trail
unfolding read_original
original_trail key w = ground arith

module _ (h : Host) (g : IsDigest h) (d : ℕ) where
  -- The trail is audited, and the document waits for OCR.
  record Waiting (w : World) : Type 0 where
    audited : IsAudited h w
    waiting : current_state d w ≡ some unprocessable_ocr

  Waiting-trail : (v w : World) → w.trail ≡ v.trail → Waiting v → Waiting w
  unfolding current_state
  Waiting-trail v w same x = record {
    audited = IsAudited-trail h v w same x.audited;
    waiting = rw same x.waiting;
  }

  silent : {A : Type 0} (m : Db A) → ((w : World) → (m w).1.trail ≡ w.trail) → Keeps Waiting m
  silent m same = record { at = λ w x. Waiting-trail w (m w).1 (same w) x }

  take_key-Audits : (key : String) → Audits h (take_key d key)
  unfolding take_key
  take_key-Audits key = record { at = λ w a. IsAudited-trail h w _ (ground arith) a }

  requeue-Audits : (old new : String) (m : Metric) → Audits h (requeue h d old new m)
  unfolding requeue
  requeue-Audits old new m = search (keeps_rules, take_key-Audits, transition-Audits) depth 8

  owned-Audits :
      (new old : String) (m : Metric) (o : Option Document)
      → Audits h (elim o [
        | some e ↦ do supersede h none d e.id "ocr" none (some new); pure superseded
        | none ↦ requeue h d old new m
      ])
  owned-Audits new old m none = requeue-Audits old new m
  owned-Audits new old m (some e) =
      Keeps-bind (supersede h none d e.id "ocr" none (some new)) _
        (supersede-Audits h g none d e.id "ocr" none (some new)) (search keeps_rules)

  rekey-Audits : (old : String) (b : Bytes) (m : Metric) → Audits h (rekey h d old b m)
  unfolding rekey
  rekey-Audits old b m =
      let new = append_string "documents/" (h.sha256_bytes b) in
      Keeps-bind (modify (λ w. record w { objects = Objects.put new b w.objects })) _
        (Audits-modify h (λ w. record w { objects = Objects.put new b w.objects }) λ w. refl)
        λ u.
          Keeps-bind (gets (λ w. owner_other d (live_document_for new w))) _ (search keeps_rules)
            (owned-Audits new old m)

  recovered-Leads :
      (old : String) (b : Bytes) (m : Metric) → Leads Waiting (IsAudited h) (recovered h d old b m)
  unfolding recovered still_scanned append
  recovered-Leads old b m = elim (Bool-cases m.born_digital) [
    | inl text ↦ rw text (Leads-Keeps (rekey h d old b m) (λ w x. x.audited) (rekey-Audits old b m))
    | inr scan ↦ rw scan (record {
      leads = λ w x. append-IsAudited h g d _ _ "ocr" _ w x.waiting (inl refl) x.audited;
    })
  ]

  reading :
      (sv : Services) (ocr : ℕ → Bytes → Outcome Exc Bytes) (threshold : ℕ)
      → Leads Waiting (IsAudited h) (do
        key ← object_key_of d
        pdf_bytes ← read_original key
        ocr_bytes ← call (λ n. ocr n pdf_bytes)
        m ← lift (profile_pdf h sv ocr_bytes threshold)
        recovered h d key ocr_bytes m)
  reading sv ocr threshold =
      Leads-bind (object_key_of d) _ forget (silent (object_key_of d) (key_trail d)) λ key.
        Leads-bind (read_original key) _ forget (silent (read_original key) (original_trail key))
          λ b.
            Leads-bind (call (λ n. ocr n b)) _ forget (silent (call (λ n. ocr n b)) λ w. refl) λ t.
              Leads-bind (lift (profile_pdf h sv t threshold)) _ forget
                (silent (lift (profile_pdf h sv t threshold)) λ w. refl) (recovered-Leads key t)
    where
      forget : (w : World) → Waiting w → IsAudited h w
      forget w x = x.audited

  -- A recovery leaves a trail that verifies and on which every document went by allowed edges, if
  -- the trail was so before, whatever the OCR engine answers, also where it raises, where sha256
  -- digests have 64 characters.
  pub recover-IsAudited :
      (sv : Services) (ocr : ℕ → Bytes → Outcome Exc Bytes) (threshold : ℕ) (w : World)
      → IsAudited h w
      → IsAudited h (recover h sv ocr threshold d w).1
  unfolding recover
  recover-IsAudited sv ocr threshold w a =
      elim (Bool-cases (current_state d w == some unprocessable_ocr)) [
        | inl here ↦ rw here (
            (reading sv ocr threshold).leads w (record {
              audited = a;
              waiting = (option_beq_iff (current_state d w) (some unprocessable_ocr)).0 here;
            }))
        | inr other ↦ rw other a
      ]
