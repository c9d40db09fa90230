-- ===== src/Examples/Runs.antt =====
-- Tests: what the definitions compute at one input.
use wordsworth.Prelude.{latest, ◌≡◌, refl, false, none, some, [], ◌∷◌, ok}
use wordsworth.Text.{strip, lower}
use wordsworth.Json.{null, str, num, arr, obj, nil, cons, end, field}
use wordsworth.Json.Dumps.{dumps, compact}
use wordsworth.Tokens.{
  neutralise_foreign_tokens, token_length, is_label_char, is_hex_char, hex_close,
}
use wordsworth.States.{indexed}
use wordsworth.Passages.{split_tokens, split}
use wordsworth.Audit.{append}
use wordsworth.Dossiers.{ensure}
use wordsworth.Dossiers.Membership.{add}
use wordsworth.Dossiers.Events.{membership_changed}
use wordsworth.Objects.{get_raw}
use wordsworth.Retry.{retry_transient}
use wordsworth.Pipeline.{ingest, transition, register, register_live}
use wordsworth.Pipeline.Process.{process}
use wordsworth.Examples.Samples.{host, empty_world, arrival, pdf, services}

strip_run : strip "  Gooise Meren \n" ≡ "Gooise Meren"
unfolding strip
strip_run = refl

lower_run : lower "ALLE" ≡ "alle"
unfolding lower
lower_run = refl

dumps_run :
    dumps compact
      (obj (field "b" (num 120) (field "a" (arr (cons null (cons (str "x\"\n") nil))) end)))
    ≡ "{\"a\":[null,\"x\\\"\\n\"],\"b\":120}"
unfolding dumps
dumps_run = refl

neutralise_run :
    neutralise_foreign_tokens "zie [PERSON:5c93c3df], [X]" ≡ ("zie (PERSON:5c93c3df), [X]", 1)
unfolding neutralise_foreign_tokens token_length is_label_char is_hex_char hex_close
neutralise_run = refl

-- The last window ends with the last word.
windows_run :
    split_tokens 3 2 ("a" ∷ "b" ∷ "c" ∷ "d" ∷ "e" ∷ "f" ∷ []) ≡ "a b c" ∷ "c d e" ∷ "d e f" ∷ []
unfolding split_tokens
windows_run = refl

-- A document that arrives is processed to the end; the anonymiser's first failure is retried.
process_run :
    (process host services 1 100 (ingest host (λ w. w) pdf (some "Woo 7") arrival empty_world).1).0
    ≡ ok (some indexed)
unfolding process ingest transition append latest register_live register ensure add
    membership_changed get_raw retry_transient split
process_run = refl

process_slept :
    (process host services 1 100
      (ingest host (λ w. w) pdf (some "Woo 7") arrival empty_world).1).1.slept
    ≡ 10 ∷ []
unfolding process ingest transition append latest register_live register ensure add
    membership_changed get_raw retry_transient split
process_slept = refl

-- What arrives is filed in the dossier that was made for it; a dossier that is not there takes nothing.
filed_run : (ingest host (λ w. w) pdf (some "Woo 7") arrival empty_world).1.members ≡ (2, 1) ∷ []
unfolding ingest transition append latest register_live register ensure add membership_changed
filed_run = refl

unknown_run :
    (add host 9 1 "jan" none (ingest host (λ w. w) pdf (some "Woo 7") arrival empty_world).1).0
    ≡ ok false
unfolding ingest transition append latest register_live register ensure add membership_changed
unknown_run = refl
