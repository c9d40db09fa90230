-- ===== src/Examples/Requests.antt =====
-- The theorems on access assertions and on a whole run of `process`, applied.
use wordsworth.Prelude.{
  ℕ, String, ◌≡◌, refl, true, none, some, Option, [], ◌∷◌, ok, err, ◌↔◌, latest, ◌==◌, string_eq,
  if◌then◌else◌,
}
use wordsworth.Json.{Json, str, obj, arr, nil, num, field, end}
use wordsworth.States.{registered, indexed}
use wordsworth.World.{World, Document, find_document}
use wordsworth.Objects
use wordsworth.Audit.{append, current_state}
use wordsworth.Pipeline.Services.{Services, Anonymized, is_sealed}
use wordsworth.Pipeline.Process.{process}
use wordsworth.Pipeline.Process.Indexed.{IsSearchable}
use wordsworth.Pipeline.Process.Reaches.{process-Reaches}
use wordsworth.Access.{Verifier, Decoder, email_from, caller, attribute_error}
use wordsworth.Access.Accepted.{IsAccepted, email_from-IsAccepted}
use wordsworth.Examples.Samples.{services, host, empty_world, pdf}

abbrev verifier : Verifier
verifier = record { issuer = "https://team"; audience = "wordsworth" }

abbrev head : Json
head = obj (field "alg" (str "RS256") (field "kid" (str "k1") end))

abbrev body : Json
body = obj (
    field "aud" (str "wordsworth") (
      field "iss" (str "https://team")
        (field "email" (str "jan@example.nl") (field "exp" (num 60) end))))

-- What the parts of a token hold: a header, a body, or something else.
abbrev loaded : String → Option Json
loaded part = if part == "h" then some head else if part == "b" then some body else some (arr nil)

abbrev decoder : Decoder ℕ
decoder = record {
  load = loaded;
  unb64 = λ part. some [];
  verifies = λ k signature message. true;
  seconds = λ j. some 60;
}

-- A request with that token is Jan's.
caller_run : caller decoder verifier (("k1", 1) ∷ []) 5 "h.b.s" ≡ ok (some "jan@example.nl")
unfolding caller email_from
caller_run = refl

-- A header that is a list is not refused: reading it raises an AttributeError, which `caller` does
-- not catch.
caller_raises : caller decoder verifier (("k1", 1) ∷ []) 5 "s.b.s" ≡ err attribute_error
unfolding caller email_from
caller_raises = refl

email_from-IsAccepted_example :
    (email_from decoder verifier (("k1", 1) ∷ []) 5 "h.b.s" ≡ ok "jan@example.nl")
    ↔ IsAccepted decoder verifier (("k1", 1) ∷ []) 5 "h.b.s" "jan@example.nl"
email_from-IsAccepted_example =
    email_from-IsAccepted decoder verifier (("k1", 1) ∷ []) 5 "h.b.s" "jan@example.nl"

abbrev anonymous : Anonymized
anonymous = record { text = "besluit"; counts = []; detections = end; lists_hash = none }

abbrev answering : Services
answering = record services { anonymize = λ n s. ok anonymous }

abbrev document : Document
document = record {
  id = 1;
  object_key = "documents/a";
  filename = none;
  superseded_by = none;
  source_url = none;
  fetched_at = none;
  source_sha256 = none;
}

-- A document that was registered, with its original in the store.
abbrev arrived : World
arrived = record (append host 1 none registered "register" end empty_world).1 {
  documents = document ∷ [];
  objects = ("documents/a", pdf) ∷ [];
}

process-Reaches_example :
    ((process host answering 1 50 arrived).0 ≡ ok (some indexed))
    × IsSearchable 1 document "besluit" (process host answering 1 50 arrived).1
unfolding find_document current_state append latest is_sealed Objects.get_raw
process-Reaches_example =
    process-Reaches host answering 1 document pdf 50 500 1 "besluit op bezwaar" anonymous
      (λ s. 1 ∷ 0 ∷ []) registered arrived refl refl refl refl refl refl refl refl (λ n. refl)
      (λ n s. refl) (λ n. refl)
