-- ===== src/Examples/Access.antt =====
-- The theorems on reveals, grants, answers and the rate limit, applied.
use wordsworth.Prelude.{
  Outcome, contains, ◌≡◌, ◌≤◌, ◌*◌, ◌+◌, ◌-◌, ◌&&◌, refl, true, false, none, some, List, [], ◌∷◌,
  ok, String, arith, string_eq, map, All,
}
use wordsworth.Text.{upper}
use wordsworth.World.{Exc}
use wordsworth.Tokens.Reveal.{Vault, reveal, revealed_tokens, gates}
use wordsworth.Tokens.Reveal.Gates.{IsPermitted, reveal-IsPermitted, reveal-none}
use wordsworth.Grants.{Grant, Request, active, authorize, permitted_types, grant_of, revoke}
use wordsworth.Grants.Decisions.{is_open, contains-authorize, answers, authorize-revoke}
use wordsworth.Rag.{Source, Answer, ask}
use wordsworth.Rag.Grounded.{IsFitting, is_distinct, ask-IsFitting}
use wordsworth.RateLimit.{admitted, bucket_of}
use wordsworth.RateLimit.Bounds.{admitted_le, last_time}

abbrev vault : Vault
vault = record {
  get_mapping = λ p. some (record {
    pseudonym = p;
    key_id = "person";
    ciphertext = [];
    nonce = [];
    norm_version = none;
  });
  get_key = λ k. some (1 ∷ []);
  decrypt = λ k c n. ok "Jan";
}

reveal-IsPermitted_example :
    All (IsPermitted vault (some ("PERSON" ∷ [])) (some ("[PERSON:5c93c3df]" ∷ []))) (
      revealed_tokens (
        reveal vault
          (some ("PERSON" ∷ []))
          (some ("[PERSON:5c93c3df]" ∷ []))
          "van [PERSON:5c93c3df] aan [PERSON:00000000]"))
reveal-IsPermitted_example =
    reveal-IsPermitted vault (some ("PERSON" ∷ [])) (some ("[PERSON:5c93c3df]" ∷ []))
      "van [PERSON:5c93c3df] aan [PERSON:00000000]"

-- No token is registered.
reveal-none_example :
    reveal vault none (some []) "van [PERSON:5c93c3df]" ≡ ok ("van [PERSON:5c93c3df]", [])
unfolding gates
reveal-none_example = reveal-none vault none (some []) "van [PERSON:5c93c3df]" (λ t. refl)

abbrev grant : Grant
grant = record {
  grant_id = "g1";
  recipient = "jan";
  allowed_types = "PERSON" ∷ [];
  document_id = some 1;
  status = active;
  created_at = 0;
  revoked_at = none;
  expires_at = some 100;
  actor = "beheer";
  domain = "_global";
  role = none;
}

abbrev request : Request
request = record {
  document_id = some 1;
  requested_types = "person" ∷ [];
  now = 5;
  domain = "_global";
  allow_global = false;
  caller = some "jan";
  auth_enabled = true;
  resolve_role = none;
  global_roles = [];
}

contains-authorize_example : contains (authorize grant request) "PERSON" ≡ (
    is_open grant request
    && contains (map upper request.requested_types) "PERSON"
    && contains (permitted_types grant request.resolve_role) "PERSON")
contains-authorize_example = contains-authorize grant request "PERSON"

authorize-revoke_example :
    (hs : List Grant) × (revoke "g1" 7 (grant ∷ []) ≡ ok hs)
    × (answers (grant_of "g1" hs) request ≡ [])
unfolding grant_of
authorize-revoke_example = authorize-revoke "g1" "g1" 7 (grant ∷ []) grant request refl

-- Ten units to a request, one unit for each tick, room for two requests.
admitted_le_example :
    (admitted 10 1 20 10 "ip:1" (0 ∷ 1 ∷ 2 ∷ 12 ∷ []) []).0 * 10
    ≤ 20 + (last_time 0 (1 ∷ 2 ∷ 12 ∷ []) - 0) * 1
unfolding bucket_of
admitted_le_example =
    admitted_le 10 1 20 10 "ip:1" 0 (1 ∷ 2 ∷ 12 ∷ []) [] refl
      (omega arith, (omega arith, (omega arith, tt)))

-- The model cites a source that was not retrieved beside one that was.
abbrev model : String → List Source → Outcome Exc Answer
model query sources = ok (record { text = "Ja."; citations = "d1" ∷ "d9" ∷ "d1" ∷ [] })

ask-IsFitting_example :
    (b : Answer) × (ask model "Is er besloten?"
        (record { document_id = "d1"; text = "besluit" } ∷ [])
      ≡ ok b)
    × (contains b.citations "d9" ≡ false)
    × (is_distinct b.citations ≡ true)
    × IsFitting (record { text = "Ja."; citations = "d1" ∷ "d9" ∷ "d1" ∷ [] }) b
ask-IsFitting_example =
    ask-IsFitting model "Is er besloten?" (record { document_id = "d1"; text = "besluit" } ∷ [])
      (record { text = "Ja."; citations = "d1" ∷ "d9" ∷ "d1" ∷ [] }) "d9" refl
