-- ===== src/Cache/Embedder.antt =====
-- `CachingEmbedder` and `query_key` of src/wordsworth/cache.py. sha256 and the inner embedder are
-- parameters; a vector that was not computed is `none`, Python's `None`.
use Prim.Native.String.{String, ◌++◌}
use wordsworth.Prelude.{ℕ, Option, none, some, List, [], ◌∷◌, Outcome, ok, err}
use wordsworth.World.{Exc}
use wordsworth.Cache.{get, set}

-- `QUERY_PREFIX`
abbrev pub query_prefix : String
query_prefix = "q:"

-- `query_key`, with the numbers as texts
unfoldable pub query_key : (ℕ → String) → String → ℕ → ℕ → String → String
query_key decimal mode size recall query =
    query_prefix ++ mode ++ ":" ++ decimal size ++ ":" ++ decimal recall ++ ":" ++ query

-- `_embedding_key`
unfoldable pub embedding_key : (String → String) → String → String → String
embedding_key sha256 model text = "emb:" ++ model ++ ":" ++ sha256 text

module _ {V : Type 0} (maxsize : ℕ) (key : String → String) where
  -- The first loop: what the cache has for each text, and the store after it.
  unfoldable pub probe :
      List String → List (String × V) → List (String × Option V) × List (String × V)
  unfolding get
  probe [] es = ([], es)
  probe (t ∷ ts) es =
      let hit = get (key t) es in let rest = probe ts hit.1 in ((t, hit.0) ∷ rest.0, rest.1)

  unfoldable pub missing : List (String × Option V) → List String
  missing [] = []
  missing ((t, some v) ∷ ps) = missing ps
  missing ((t, none) ∷ ps) = t ∷ missing ps

  -- The second loop: the fresh vectors go to the places that miss one, and into the cache.
  unfoldable pub fill :
      List (String × Option V) → List V → List (String × V) → List (Option V) × List (String × V)
  unfolding set
  fill [] fresh es = ([], es)
  fill ((t, some v) ∷ ps) fresh es = let rest = fill ps fresh es in (some v ∷ rest.0, rest.1)
  fill ((t, none) ∷ ps) [] es = let rest = fill ps [] es in (none ∷ rest.0, rest.1)
  fill ((t, none) ∷ ps) (v ∷ fresh) es =
      let rest = fill ps fresh (set maxsize (key t) v es) in (some v ∷ rest.0, rest.1)

  -- `inner.embed`, if a text is missing
  abbrev pub embed_missing :
      (List String → Outcome Exc (List V)) → List String → Outcome Exc (List V)
  embed_missing inner [] = ok []
  embed_missing inner (t ∷ ts) = inner (t ∷ ts)

  abbrev pub filled :
      List (String × Option V)
      → List (String × V)
      → Outcome Exc (List V)
      → Outcome Exc (List (Option V)) × List (String × V)
  filled ps es (err e) = (err e, es)
  filled ps es (ok fresh) = let r = fill ps fresh es in (ok r.0, r.1)

  -- `embed`
  unfoldable pub embed :
      (List String → Outcome Exc (List V))
      → List String
      → List (String × V)
      → Outcome Exc (List (Option V)) × List (String × V)
  unfolding probe missing fill
  embed inner texts es =
      let p = probe texts es in filled p.0 p.1 (embed_missing inner (missing p.0))
