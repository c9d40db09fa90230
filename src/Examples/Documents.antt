-- ===== src/Examples/Documents.antt =====
-- The theorems on tokens and registration, applied.
use wordsworth.Prelude.{◌≡◌, refl, true, none, some, [], ok, latest}
use wordsworth.World.{Document}
use wordsworth.Audit.{current_state, append}
use wordsworth.Tokens.{tokens_in, neutralise_foreign_tokens}
use wordsworth.Tokens.Neutral.{neutralise-tokens_in}
use wordsworth.Pipeline.{is_live, live_document_for, register_live, ingest, transition, register}
use wordsworth.Pipeline.Live.{register_live_lem}
use wordsworth.Examples.Samples.{host, empty_world, arrival, pdf}

neutralise-tokens_in_example :
    tokens_in (neutralise_foreign_tokens "zie [PERSON:5c93c3df], [X]").0 ≡ []
neutralise-tokens_in_example = neutralise-tokens_in "zie [PERSON:5c93c3df], [X]"

-- Another session files the same bytes between the look-up and the insert.
register_live_lem_example :
    (d : Document) × ((register_live host
        (λ w. (ingest host (λ v. v) pdf none arrival w).1)
        "documents/5feceb66"
        arrival
        none
        empty_world).0
      ≡ ok d)
    × (live_document_for "documents/5feceb66"
          (register_live host
            (λ w. (ingest host (λ v. v) pdf none arrival w).1)
            "documents/5feceb66"
            arrival
            none
            empty_world).1
        ≡ some d)
    × (is_live "documents/5feceb66" d ≡ true)
unfolding ingest current_state latest register_live register transition append
register_live_lem_example =
    register_live_lem host "documents/5feceb66" arrival none
      (λ w. (ingest host (λ v. v) pdf none arrival w).1) empty_world refl
