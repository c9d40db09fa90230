-- ===== src/Originals/DocumentKeys.antt =====
-- src/wordsworth/document_keys.py: a key for each original, wrapped by the key service, with a cache
-- that is listed from the oldest. The service and `os.urandom` are the parameter `KeyService`.
use wordsworth.Prelude.{
  ℕ, suc, ◌+◌, String, Bool, false, Option, none, some, List, [], ◌∷◌, ◌++◌, ◌==◌, string_eq, Exec,
  Outcome, ok, err, pure, raise, gets, modify, lift, ◌>>=◌, ◌>>◌, leb, if◌then◌else◌,
}
use wordsworth.World.{Exc, Bytes, other}
use wordsworth.Cache.{value_of, without_key, to_end, evict}

pub record DataKey : Type 0 where
  pub key_id : Bytes
  pub material : Bytes

-- `DocumentKeyRecord`
pub record KeyRow : Type 0 where
  pub object_key : String
  pub document_id : ℕ
  pub key_id : Bytes
  pub kek_ref : String
  pub wrapped_material : Bytes
  pub is_sealed : Bool

pub record KeyService : Type 0 where
  -- `_mint_dek()`, by how many were minted
  pub mint : ℕ → DataKey
  -- `os.urandom(12)`, by how many nonces were drawn
  pub nonce : ℕ → Bytes
  -- `settings.originals_kek_by_domain.get(domain, settings.originals_kek)`
  pub kek_name_for : String → String
  pub wrap : String → Bytes → Outcome Exc Bytes
  pub unwrap : String → Bytes → Outcome Exc Bytes
  pub cache_size : ℕ
  pub cache_ttl : ℕ

-- What the object store, the table of keys and the cache hold, and how far the clock, the mint and
-- the nonces are.
pub record Vaulted : Type 0 where
  pub objects : List (String × Bytes)
  pub rows : List KeyRow
  pub cache : List (String × (DataKey × ℕ))
  pub minted : ℕ
  pub drawn : ℕ
  pub clock : ℕ → ℕ
  pub reads : ℕ

abbrev pub Vt : Type 0 → Type 0
Vt A = Exec Exc Vaulted A

-- `OriginalsKeyUnavailable`
abbrev pub key_unavailable : Exc
key_unavailable = other "originalskeyunavailable" none none

-- `self._clock()`
abbrev pub read_clock : Vt ℕ
read_clock s = (ok (s.clock s.reads), record s { reads = suc s.reads })

-- `session.get(DocumentKeyRecord, object_key)`
unfoldable pub row_of : String → List KeyRow → Option KeyRow
row_of k [] = none
row_of k (r ∷ rs) = if r.object_key == k then some r else row_of k rs

-- `_cache_get`
unfoldable pub cache_get : String → Vt (Option DataKey)
unfolding value_of without_key
cache_get k = do
  hit ← gets (λ s. value_of k s.cache)
  elim hit [
    | none ↦ pure none
    | some (key, expiry) ↦ do
      now ← read_clock
      if leb expiry now
          then modify (λ s. record s { cache = without_key k s.cache }) >> pure none
          else modify (λ s. record s { cache = to_end k (key, expiry) s.cache }) >> pure (some key)
  ]

module _ (ks : KeyService) where
  -- `_cache_put`
  unfoldable pub cache_put : String → DataKey → Vt (Unit {0})
  unfolding without_key evict
  cache_put k key = do
    now ← read_clock
    modify
        (λ s. record s { cache = evict ks.cache_size (to_end k (key, now + ks.cache_ttl) s.cache) })

  abbrev unavailable : {A : Type 0} → Outcome Exc A → Outcome Exc A
  unavailable (ok a) = ok a
  unavailable (err e) = err key_unavailable

  -- `_unwrap_row`
  unfoldable pub unwrap_row : KeyRow → Vt DataKey
  unfolding cache_put
  unwrap_row r = do
    material ← lift (unavailable (ks.unwrap r.kek_ref r.wrapped_material))
    let key : DataKey = record { key_id = r.key_id; material = material }
    cache_put r.object_key key
    pure key

  -- `unwrap`
  unfoldable pub unwrap : String → Vt DataKey
  unfolding cache_get row_of unwrap_row
  unwrap k = do
    cached ← cache_get k
    row ← gets (λ s. row_of k s.rows)
    elim cached [
      | some key ↦ pure key
      | none ↦ elim row [ none ↦ raise key_unavailable | some r ↦ unwrap_row r ]
    ]

  -- The insert of a row, which its primary key may refuse; then the row that is there is used.
  unfoldable pub insert_or_adopt : KeyRow → DataKey → Vt DataKey
  unfolding row_of unwrap_row cache_put
  insert_or_adopt r fresh = do
    there ← gets (λ s. row_of r.object_key s.rows)
    elim there [
      | some winner ↦ unwrap_row winner
      | none ↦ do
        modify (λ s. record s { rows = s.rows ++ r ∷ [] })
        cache_put r.object_key fresh
        pure fresh
    ]

  -- `mint`
  unfoldable pub mint : ℕ → String → String → Vt DataKey
  unfolding insert_or_adopt
  mint document_id k domain = do
    fresh ← gets (λ s. ks.mint s.minted)
    modify (λ s. record s { minted = suc s.minted })
    wrapped ← lift (unavailable (ks.wrap (ks.kek_name_for domain) fresh.material))
    insert_or_adopt
        (record {
          object_key = k;
          document_id = document_id;
          key_id = fresh.key_id;
          kek_ref = ks.kek_name_for domain;
          wrapped_material = wrapped;
          is_sealed = false;
        })
        fresh
