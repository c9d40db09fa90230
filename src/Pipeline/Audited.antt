-- ===== src/Pipeline/Audited.antt =====
-- Registration and ingest keep the audit trail whole.
use wordsworth.Prelude.{
  ℕ, String, ◌≡◌, refl, Option, none, some, arith, keeps_rules, Keeps-bind, Outcome, ok, err, gets,
  pure, modify, ◌>>=◌, ◌>>◌, Keeps-modify,
}
use wordsworth.States.{registered}
use wordsworth.World.{World, Exc, Document, Bytes, savepoint, catch_integrity}
use wordsworth.Audit.{Host}
use wordsworth.Audit.Chain.{IsDigest}
use wordsworth.Audit.Lawful.{IsAudited}
use wordsworth.Audit.Actions.{Audits, Audits-savepoint, Audits-catch, IsAudited-trail}
use wordsworth.Objects.{PutResult, wrote, write_original}
use wordsworth.Dossiers.Audited.{ensure-Audits, add-Audits}
use wordsworth.Pipeline.{
  Arrival, insert_document, register, register_live, live_document_for, winner_or_raise, file_in,
  undo_write, ingest,
}
use wordsworth.Pipeline.Transitions.{transition-Audits}

module _ (h : Host) (g : IsDigest h) where
  insert_document-Audits : (d : Document) → Audits h (insert_document d)
  unfolding insert_document
  insert_document-Audits d = record { at = λ w a. IsAudited-trail h w _ (ground arith) a }

  pub register-Audits :
      (key : String) (a : Arrival) (sha : Option String) → Audits h (register h key a sha)
  unfolding register
  register-Audits key a sha = record {
    at = λ w v.
        (Keeps-bind (insert_document _) _ (insert_document-Audits _) λ _.
            Keeps-bind _ _ (transition-Audits h g w.next_id registered "register" _)
              λ _. (search keeps_rules)).at
          (record w { next_id = _ }) (IsAudited-trail h w _ refl v);
  }

  winner-Audits : (o : Option Document) → Audits h (winner_or_raise o)
  unfolding winner_or_raise
  winner-Audits none = search keeps_rules
  winner-Audits (some d) = search keeps_rules

  pub register_live-Audits :
      (meanwhile : World → World)
      → ((w : World) → IsAudited h w → IsAudited h (meanwhile w))
      → (key : String) (a : Arrival) (sha : Option String)
      → Audits h (register_live h meanwhile key a sha)
  unfolding register_live
  register_live-Audits meanwhile keep_up key a sha =
      Keeps-bind (gets (live_document_for key)) _ (search keeps_rules) (found)
    where
      found :
          (o : Option Document)
          → Audits h (elim o [
            | some d ↦ pure d
            | none ↦ do
              modify meanwhile
              catch_integrity
                  (savepoint (register h key a sha))
                  (do winner ← gets (live_document_for key); winner_or_raise winner)
          ])
      found (some d) = search keeps_rules
      found none =
          search
            (
              keeps_rules, Keeps-modify, keep_up, register-Audits, winner-Audits, Audits-savepoint,
              Audits-catch,
            )
            depth 8

  file_in-Audits : (dossier : Option String) (i : ℕ) → Audits h (file_in h dossier i)
  unfolding file_in
  file_in-Audits none i = search keeps_rules
  file_in-Audits (some n) i = search (keeps_rules, ensure-Audits, add-Audits) depth 8

  undo_write-trail :
      (r : PutResult) (key : String) (o : Outcome Exc (Unit {0})) (w : World)
      → (undo_write r key (o, w)).1.trail ≡ w.trail
  unfolding undo_write
  undo_write-trail r key (ok u) w = refl
  undo_write-trail wrote key (err e) w = refl
  undo_write-trail r key (err e) w = refl

  write_original-Audits : (key : String) (b : Bytes) → Audits h (write_original key b)
  unfolding write_original
  write_original-Audits key b = record { at = λ w a. IsAudited-trail h w _ refl a }

  filed-Audits :
      (r : PutResult) (key : String) (dossier : Option String) (i : ℕ)
      → Audits h (λ w. undo_write r key (file_in h dossier i w))
  filed-Audits r key dossier i = record {
    at = λ w a.
        let (o, w') = file_in h dossier i w in
        IsAudited-trail h w' _ (undo_write-trail r key o w') ((file_in-Audits dossier i).at w a);
  }

  pub ingest-Audits :
      (meanwhile : World → World)
      → ((w : World) → IsAudited h w → IsAudited h (meanwhile w))
      → (b : Bytes) (dossier : Option String) (a : Arrival)
      → Audits h (ingest h meanwhile b dossier a)
  unfolding ingest
  ingest-Audits meanwhile keep_up b dossier a =
      search (keeps_rules, register_live-Audits, keep_up, write_original-Audits, filed-Audits) depth
        12

  -- An ingest leaves a trail that verifies and on which every document went by allowed edges, also
  -- where it raises, if the trail was so before and what other sessions commit between its look-up
  -- and its insert leaves it so, and where sha256 digests have 64 characters.
  pub ingest-IsAudited :
      (meanwhile : World → World)
      → ((w : World) → IsAudited h w → IsAudited h (meanwhile w))
      → (b : Bytes) (dossier : Option String) (a : Arrival) (w : World) → IsAudited h w
      → IsAudited h (ingest h meanwhile b dossier a w).1
  ingest-IsAudited meanwhile keep_up b dossier a w v =
      (ingest-Audits meanwhile keep_up b dossier a).at w v
