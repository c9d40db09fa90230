-- ===== src/Examples/Trails.antt =====
-- The theorems on states, the audit trail and retries, applied.
use wordsworth.Passages.{split}
use wordsworth.Objects.{get_raw}
use wordsworth.Dossiers.Events.{membership_changed}
use wordsworth.Dossiers.Membership.{add}
use wordsworth.Dossiers.{ensure}
use wordsworth.Prelude.{
  ◌≡◌, ◌≢◌, ◌↔◌, ◌⊎◌, inr, suc, refl, true, false, none, some, map, err, latest,
}
use wordsworth.Json.{end}
use wordsworth.States.{
  state_eq, State, registered, extractable, extracted, anonymized, indexed, failed, is_allowed,
}
use wordsworth.States.Reachability.{failed_edges}
use wordsworth.World.{World, Db, timeout_error, value_error}
use wordsworth.Audit.{append, current_state, verify_chain, content_of}
use wordsworth.Audit.Chain.{verify_chain-append, IsDigest}
use wordsworth.Audit.Tamper.{trails_agree, Collision}
use wordsworth.Audit.Lawful.{IsAudited, append-IsAudited, indexed-anonymized, passed, walks}
use wordsworth.Retry.{retry_transient}
use wordsworth.Retry.Bounds.{Settles, retry_transient-Settles}
use wordsworth.Pipeline.{transition, ingest, register_live, register}
use wordsworth.Pipeline.Transitions.{current_state-transition, transition-raises_iff}
use wordsworth.Pipeline.Audited.{ingest-IsAudited}
use wordsworth.Pipeline.Process.{process}
use wordsworth.Pipeline.Process.Audited.{process-IsAudited}
use wordsworth.Examples.Samples.{host, empty_world, arrival, pdf, services}

pub host-IsDigest : IsDigest host
host-IsDigest s = refl

pub empty-IsAudited : IsAudited host empty_world
unfolding verify_chain walks
empty-IsAudited = record { verified = refl; lawful = λ d. refl }

failed_edges_example : is_allowed (some extracted) failed ≡ true
unfolding is_allowed
failed_edges_example = failed_edges extracted

abbrev one_record : World
one_record = (append host 1 none registered "register" end empty_world).1

verify_chain-append_example :
    verify_chain host (append host 1 (some registered) extractable "profile" end one_record).1
    ≡ (true, none)
unfolding verify_chain append latest
verify_chain-append_example =
    verify_chain-append host host-IsDigest 1 (some registered) extractable "profile" end one_record
      refl

-- A trail in which the record was rewritten; the sample host gives it the same hash.
abbrev rewritten : World
rewritten = (append host 1 none registered "rewritten" end empty_world).1

trails_agree_example :
    (map (content_of host) one_record.trail ≡ map (content_of host) rewritten.trail)
    ⊎ Collision host one_record.trail rewritten.trail
unfolding verify_chain append latest Collision
trails_agree_example = trails_agree host host-IsDigest one_record rewritten refl refl refl refl

append-IsAudited_example :
    IsAudited host (append host 1 none registered "register" end empty_world).1
unfolding current_state is_allowed latest
append-IsAudited_example =
    append-IsAudited host host-IsDigest 1 none registered "register" end empty_world refl (inr refl)
      empty-IsAudited

-- The document is registered, filed in a new dossier, and processed to the end.
pub arrived-IsAudited :
    IsAudited host (ingest host (λ w. w) pdf (some "Woo 7") arrival empty_world).1
arrived-IsAudited =
    ingest-IsAudited host host-IsDigest (λ w. w) (λ w a. a) pdf (some "Woo 7") arrival empty_world
      empty-IsAudited

ingest-IsAudited_example :
    IsAudited host (ingest host (λ w. w) pdf (some "Woo 7") arrival empty_world).1
ingest-IsAudited_example =
    ingest-IsAudited host host-IsDigest (λ w. w) (λ w a. a) pdf (some "Woo 7") arrival empty_world
      empty-IsAudited

process-IsAudited_example :
    IsAudited host
      (process host services 1 100
        (ingest host (λ w. w) pdf (some "Woo 7") arrival empty_world).1).1
process-IsAudited_example =
    process-IsAudited host host-IsDigest services 1 100
      (ingest host (λ w. w) pdf (some "Woo 7") arrival empty_world).1 arrived-IsAudited

abbrev processed : World
processed =
    (process host services 1 100 (ingest host (λ w. w) pdf (some "Woo 7") arrival empty_world).1).1

processed-IsAudited : IsAudited host processed
processed-IsAudited =
    process-IsAudited host host-IsDigest services 1 100
      (ingest host (λ w. w) pdf (some "Woo 7") arrival empty_world).1 arrived-IsAudited

indexed-anonymized_example : passed 1 anonymized processed.trail ≡ true
unfolding process ingest transition append latest register_live register ensure add
    membership_changed get_raw retry_transient split
indexed-anonymized_example = indexed-anonymized host 1 processed processed-IsAudited refl

current_state-transition_example :
    current_state 1 (transition host 1 extractable "profile" end one_record).1 ≡ some extractable
unfolding current_state append is_allowed latest
current_state-transition_example =
    current_state-transition host 1 extractable "profile" end one_record 1

transition-raises_iff_example :
    ((transition host 1 indexed "index" end one_record).0 ≡ err value_error) ↔ (
      (current_state 1 one_record ≢ some indexed)
      × (is_allowed (current_state 1 one_record) indexed ≡ false))
transition-raises_iff_example = transition-raises_iff host 1 indexed "index" end one_record

-- A call that always times out.
abbrev timing_out : Db State
timing_out w = (err timeout_error, record w { calls = suc w.calls })

retry_transient-Settles_example :
    Settles timing_out 3 10 "index" 0 3 empty_world
      (retry_transient timing_out 3 10 "index" empty_world)
retry_transient-Settles_example =
    retry_transient-Settles timing_out 3 10 "index" (λ w. refl) empty_world
