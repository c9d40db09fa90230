-- ===== src/Audit/Actions.antt =====
-- Rules for the actions that keep a trail audited.
use wordsworth.Prelude.{◌≡◌, refl, Option, none, some, Outcome, ok, err, Keeps, modify}
use wordsworth.World.{
  World, Db, Exc, integrity_error, rollback, savepoint, catch_integrity, end_savepoint, handle,
}
use wordsworth.Audit.{Host, verify_chain}
use wordsworth.Audit.Lawful.{IsAudited}

module _ (h : Host) where
  -- Only the trail counts.
  pub IsAudited-trail : (v w : World) → w.trail ≡ v.trail → IsAudited h v → IsAudited h w
  unfolding verify_chain
  IsAudited-trail v w same a = record {
    verified = rw same a.verified;
    lawful = λ d. rw same (a.lawful d);
  }

  abbrev pub Audits : {A : Type 0} → Db A → Type 0
  Audits m = Keeps (IsAudited h) m

  pub Audits-modify :
      (f : World → World) → ((w : World) → (f w).trail ≡ w.trail) → Audits (modify f)
  Audits-modify f same = record { at = λ w a. IsAudited-trail w (f w) (same w) a }

  end_savepoint_at :
      {A : Type 0} (before : World) (r : Outcome Exc A) (after : World)
      → IsAudited h before
      → IsAudited h after
      → IsAudited h (end_savepoint before (r, after)).1
  end_savepoint_at before (ok a) after b c = c
  end_savepoint_at before (err e) after b c = IsAudited-trail before (rollback before after) refl b

  pub Audits-savepoint : {A : Type 0} (m : Db A) → Audits m → Audits (savepoint m)
  Audits-savepoint m k = record { at = λ w a. end_savepoint_at w (m w).0 (m w).1 a (k.at w a) }

  handle_at :
      {A : Type 0} (k : Db A) (r : Outcome Exc A) (w : World)
      → Audits k
      → IsAudited h w
      → IsAudited h (handle k (r, w)).1
  handle_at k (err integrity_error) w ka a = ka.at w a
  handle_at k r w ka a = a

  pub Audits-catch : {A : Type 0} (m k : Db A) → Audits m → Audits k → Audits (catch_integrity m k)
  Audits-catch m k am ak = record { at = λ w a. handle_at k (m w).0 (m w).1 ak (am.at w a) }

  -- What follows a look-up that may have found nothing.
  pub Audits-option :
      {A B : Type 0} (o : Option A) (m : Db B) (f : A → Db B)
      → Audits m
      → ((a : A) → Audits (f a))
      → Audits (elim o [ none ↦ m | some a ↦ f a ])
  Audits-option none m f km kf = km
  Audits-option (some a) m f km kf = kf a
