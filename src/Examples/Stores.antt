-- ===== src/Examples/Stores.antt =====
-- The theorems on the cache and on sealed originals, applied.
use wordsworth.Prelude.{
  String, Outcome, ◌≡◌, ◌≢◌, refl, true, some, List, [], ◌∷◌, ok, err, map, string_eq,
}
use wordsworth.World.{Exc, Bytes, value_error}
use wordsworth.Objects
use wordsworth.Objects.{wrote}
use wordsworth.Cache.Embedder.{embed, embedding_key, query_key}
use wordsworth.Cache.Truthful.{IsTruthful, embed-inner}
use wordsworth.Originals.{Sealer, IsSealer, seal, header_key_id, open_original}
use wordsworth.Originals.Opened.{open-seal}
use wordsworth.Originals.DocumentKeys.{KeyService, Vaulted, row_of}
use wordsworth.Originals.Store.{put_original, get_original, has_magic}
use wordsworth.Originals.Stored.{IsKeyService, get_original-put_original}

-- The function that is cached, and the key of a text.
abbrev vector_of : String → String
vector_of key = key

abbrev key_of : String → String
key_of text = embedding_key (λ s. s) "bge" text

abbrev warm : List (String × String)
warm = ("emb:bge:besluit", "emb:bge:besluit") ∷ []

embed-inner_example :
    ((embed 2 key_of
        (λ ts. ok (map (λ t. vector_of (key_of t)) ts))
        ("bezwaar" ∷ "besluit" ∷ "bezwaar" ∷ [])
        warm).0
      ≡ ok (map (λ t. some (vector_of (key_of t))) ("bezwaar" ∷ "besluit" ∷ "bezwaar" ∷ [])))
    × IsTruthful vector_of
        (embed 2 key_of
          (λ ts. ok (map (λ t. vector_of (key_of t)) ts))
          ("bezwaar" ∷ "besluit" ∷ "bezwaar" ∷ [])
          warm).1
unfolding IsTruthful
embed-inner_example =
    embed-inner vector_of 2 key_of (λ ts. ok (map (λ t. vector_of (key_of t)) ts))
      ("bezwaar" ∷ "besluit" ∷ "bezwaar" ∷ []) warm (λ ts. refl) (refl, tt)

abbrev asked : String
asked = query_key (λ n. "10") "hybrid" 10 10 "besluit"

abbrev sealer : Sealer
sealer = record {
  utf8 = λ s. 0 ∷ [];
  encrypt = λ k n b extra. 9 ∷ b;
  decrypt = λ k n b extra. decrypted b;
}
  where
    decrypted : Bytes → Outcome Exc Bytes
    decrypted [] = err value_error
    decrypted (b ∷ bs) = ok bs

sealer-IsSealer : IsSealer sealer
sealer-IsSealer = record { opens = λ k n b extra. refl }

abbrev key_id : Bytes
key_id = 48 ∷ 48 ∷ 48 ∷ 48 ∷ 48 ∷ 48 ∷ 48 ∷ 48 ∷ 48 ∷ 48 ∷ 48 ∷ 48 ∷ []

abbrev other_id : Bytes
other_id = 49 ∷ key_id

other-differs : other_id ≢ key_id
other-differs e = cc e

abbrev original : Bytes
original = 37 ∷ 80 ∷ 68 ∷ 70 ∷ []

open-seal_example :
    (sealed : Bytes) × (seal sealer key_id (7 ∷ []) key_id "documents/a" original ≡ ok sealed)
    × (header_key_id sealed ≡ ok key_id)
    × (open_original sealer (7 ∷ []) key_id "documents/a" sealed ≡ ok original)
    × (open_original sealer (7 ∷ []) other_id "documents/a" sealed ≡ err value_error)
open-seal_example =
    open-seal sealer key_id (7 ∷ []) key_id other_id "documents/a" original sealer-IsSealer refl
      refl other-differs

abbrev service : KeyService
service = record {
  mint = λ n. record { key_id = key_id; material = n ∷ [] };
  nonce = λ n. key_id;
  kek_name_for = λ domain. "originals";
  wrap = λ kek m. ok m;
  unwrap = λ kek w. ok w;
  cache_size = 1;
  cache_ttl = 300;
}

service-IsKeyService : IsKeyService service
service-IsKeyService = record {
  unwraps = λ kek m w e. cc e;
  id_length = λ n. refl;
  nonce_length = λ n. refl;
}

abbrev vaulted : Vaulted
vaulted = record {
  objects = [];
  rows = [];
  cache = [];
  minted = 0;
  drawn = 0;
  clock = λ n. n;
  reads = 0;
}

abbrev put : Vaulted
put = (put_original sealer service (λ d. "_global") 1 "documents/a" original vaulted).1

get_original-put_original_example :
    ((put_original sealer service (λ d. "_global") 1 "documents/a" original vaulted).0 ≡ ok wrote)
    × ((b : Bytes) × (Objects.get_raw "documents/a" put.objects ≡ some b) × (has_magic b ≡ true))
    × ((get_original sealer service "documents/a" put).0 ≡ ok original)
unfolding row_of Objects.get_raw
get_original-put_original_example =
    get_original-put_original sealer service sealer-IsSealer service-IsKeyService (λ d. "_global") 1
      "documents/a" original (0 ∷ []) vaulted refl refl refl
