-- ===== src/Pipeline/Process/Audited.antt =====
-- `process` keeps the audit trail whole, wherever it stops.
use wordsworth.Prelude.{
  ℕ, String, refl, Option, none, some, List, [], ◌∷◌, ok, err, Outcome, arith, keeps_rules,
  Keeps-bind, Outcome-cases, inl, inr,
}
use wordsworth.World.{World, Exc, Bytes, IndexEntry}
use wordsworth.Audit.{Host}
use wordsworth.Audit.Chain.{IsDigest}
use wordsworth.Audit.Lawful.{IsAudited}
use wordsworth.Audit.Actions.{Audits, Audits-modify, IsAudited-trail}
use wordsworth.Retry.{retry_transient}
use wordsworth.Retry.Audited.{retry_transient-Audits}
use wordsworth.Pipeline.Transitions.{transition-Audits}
use wordsworth.Pipeline.Services.{
  Anonymized, Services, Metric, Progress, finished, running, call, read_original, object_key_of,
}
use wordsworth.Pipeline.Process.{
  write_text, extract_text, profile_step, extract_or_fail, text_in_hand, extract_step,
  store_anonymized, anonymize_step, fail_with, profiled, extracted_to, anonymized_from, embed_each,
  index_entry, index_text, index_step, process,
}

module _ (h : Host) where
  call-Audits : {A : Type 0} (answer : ℕ → Outcome Exc A) → Audits h (call answer)
  call-Audits answer = record { at = λ w a. IsAudited-trail h w _ refl a }

  read_original-Audits : (key : String) → Audits h (read_original key)
  unfolding read_original
  read_original-Audits key = record { at = λ w a. IsAudited-trail h w _ (ground arith) a }

  object_key_of-Audits : (d : ℕ) → Audits h (object_key_of d)
  unfolding object_key_of
  object_key_of-Audits d = record { at = λ w a. IsAudited-trail h w _ (ground arith) a }

  ruleset reads = (read_original-Audits, object_key_of-Audits, call-Audits)

module _ (h : Host) (g : IsDigest h) (sv : Services) where
  failing : (d : ℕ) (step name : String) → Audits h (fail_with h sv d step name)
  failing d step name = search (keeps_rules, transition-Audits) depth 6

  profiled-Audits : (d : ℕ) (r : Outcome Exc Metric) → Audits h (profiled h sv d r)
  unfolding profiled
  profiled-Audits d (err e) = search (keeps_rules, transition-Audits) depth 8
  profiled-Audits d (ok m) = search (keeps_rules, transition-Audits) depth 8

  profile_step-Audits : (d n : ℕ) (p : Progress) → Audits h (profile_step h sv d n p)
  unfolding profile_step
  profile_step-Audits d n (finished s) = search keeps_rules
  profile_step-Audits d n (running state text) =
      search (keeps_rules, reads, profiled-Audits) depth 8

  extract_or_fail-Audits : (d : ℕ) (b : Bytes) → Audits h (extract_or_fail h sv d b)
  unfolding extract_or_fail
  extract_or_fail-Audits d b = elim (Outcome-cases (extract_text h sv b)) [
    | inl (t, e) ↦ rw (e, extract_or_fail) (search keeps_rules)
    | inr (x, e) ↦ rw (e, extract_or_fail) (search (keeps_rules, transition-Audits) depth 8)
  ]

  text_in_hand-Audits : (d : ℕ) (t : Option String) → Audits h (text_in_hand h sv d t)
  unfolding text_in_hand
  text_in_hand-Audits d (some t) = search keeps_rules
  text_in_hand-Audits d none = search (keeps_rules, reads, extract_or_fail-Audits) depth 8

  extracted_to-Audits : (d : ℕ) (t : Option String) → Audits h (extracted_to h sv d t)
  unfolding extracted_to
  extracted_to-Audits d none = search keeps_rules
  extracted_to-Audits d (some t) = search (keeps_rules, transition-Audits) depth 8

  extract_step-Audits : (d : ℕ) (p : Progress) → Audits h (extract_step h sv d p)
  unfolding extract_step
  extract_step-Audits d (finished s) = search keeps_rules
  extract_step-Audits d (running state text) =
      search (keeps_rules, text_in_hand-Audits, extracted_to-Audits) depth 8

  store_anonymized-Audits : (d : ℕ) (r : Anonymized) → Audits h (store_anonymized h sv d r)
  unfolding store_anonymized
  store_anonymized-Audits d r = search (keeps_rules, transition-Audits, Audits-modify) depth 8

  anonymized_from-Audits : (d : ℕ) (t : Option String) → Audits h (anonymized_from h sv d t)
  unfolding anonymized_from
  anonymized_from-Audits d none = search keeps_rules
  anonymized_from-Audits d (some t) =
      search (keeps_rules, retry_transient-Audits, call-Audits, store_anonymized-Audits) depth 8

  anonymize_step-Audits : (d : ℕ) (p : Progress) → Audits h (anonymize_step h sv d p)
  unfolding anonymize_step
  anonymize_step-Audits d (finished s) = search keeps_rules
  anonymize_step-Audits d (running state text) =
      search (keeps_rules, text_in_hand-Audits, anonymized_from-Audits) depth 8

  embed_each-Audits : (ps : List String) → Audits h (embed_each h sv ps)
  unfolding embed_each
  embed_each-Audits [] = search keeps_rules
  embed_each-Audits (p ∷ ps) =
      Keeps-bind
        (retry_transient (call (λ n. sv.embed n p)) sv.retry_attempts sv.retry_base_delay
          "passage_embed")
        _ (search (retry_transient-Audits, call-Audits))
        λ v. Keeps-bind (embed_each h sv ps) _ (embed_each-Audits ps) λ vs. search keeps_rules

  index_entry-Audits : (e : IndexEntry) → Audits h (index_entry h sv e)
  unfolding index_entry
  index_entry-Audits e = search (keeps_rules, call-Audits, Audits-modify) depth 6

  write_text-Audits :
      (d : ℕ) (text : String) (v : List ℕ) (ps : List (List ℕ))
      → Audits h (write_text h sv d text v ps)
  unfolding write_text
  write_text-Audits d text v ps =
      search (keeps_rules, retry_transient-Audits, reads, index_entry-Audits, transition-Audits)
        depth 16

  index_text-Audits : (d : ℕ) (text : String) → Audits h (index_text h sv d text)
  unfolding index_text
  index_text-Audits d text =
      search
        (keeps_rules, retry_transient-Audits, call-Audits, embed_each-Audits, write_text-Audits)
        depth 12

  index_step-Audits : (d : ℕ) (p : Progress) → Audits h (index_step h sv d p)
  unfolding index_step
  index_step-Audits d (finished s) = search keeps_rules
  index_step-Audits d (running state text) = search (keeps_rules, index_text-Audits) depth 8

  process-Audits : (d n : ℕ) → Audits h (process h sv d n)
  unfolding process
  process-Audits d n =
      search
        (
          keeps_rules, profile_step-Audits, extract_step-Audits, anonymize_step-Audits,
          index_step-Audits,
        )
        depth 14

  -- A run of `process` leaves a trail that verifies, on which every document went by allowed edges,
  -- whatever the services answer, also where it raises: if the trail was so before, and where
  -- sha256 digests have 64 characters.
  pub process-IsAudited :
      (d threshold : ℕ) (w : World) → IsAudited h w → IsAudited h (process h sv d threshold w).1
  process-IsAudited d threshold w a = (process-Audits d threshold).at w a
