-- ===== src/Retry/Audited.antt =====
-- A retry keeps the audit trail whole if the call that is retried does.
use wordsworth.Prelude.{
  ℕ, zero, suc, ◌-◌, max, String, refl, ◌==◌, nat_eq, ok, err, Outcome, Bool-cases, inl, inr,
}
use wordsworth.World.{World, Db, Exc}
use wordsworth.Audit.{Host}
use wordsworth.Audit.Lawful.{IsAudited}
use wordsworth.Audit.Actions.{Audits, IsAudited-trail}
use wordsworth.Retry.{is_transient, after_attempt, retry_from, retry_transient}

module _ (h : Host) {A : Type 0} (fn : Db A) (k : Audits h fn) (attempts delay : ℕ)
    (what : String) where
  after_attempt-IsAudited :
      (i : ℕ) (again : Db A) (r : Outcome Exc A) (w : World)
      → Audits h again
      → IsAudited h w
      → IsAudited h (after_attempt fn attempts delay what i again r w).1
  unfolding after_attempt
  after_attempt-IsAudited i again (ok a) w ka v = v
  after_attempt-IsAudited i again (err e) w ka v = elim (Bool-cases (is_transient e)) [
    | inr settled ↦ rw settled v
    | inl open_yet ↦ elim (Bool-cases (i == attempts - 1)) [
      | inl last ↦ rw (open_yet, last) (IsAudited-trail h w _ refl v)
      | inr more ↦ rw (open_yet, more) (ka.at _ (IsAudited-trail h w _ refl v))
    ]
  ]

  retry_from-Audits : (left i : ℕ) → Audits h (retry_from fn attempts delay what left i)
  unfolding retry_from
  retry_from-Audits zero i = record { at = λ w v. v }
  retry_from-Audits (suc left) i = record {
    at = λ w v.
        after_attempt-IsAudited i (retry_from fn attempts delay what left (suc i)) (fn w).0 (fn w).1
          (retry_from-Audits left (suc i)) (k.at w v);
  }

module _ (h : Host) {A : Type 0} (fn : Db A) (attempts delay : ℕ) (what : String) where
  pub retry_transient-Audits : Audits h fn → Audits h (retry_transient fn attempts delay what)
  unfolding retry_transient
  retry_transient-Audits k = retry_from-Audits h fn k (max 1 attempts) delay what (max 1 attempts) 0
