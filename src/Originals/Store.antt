-- ===== src/Originals/Store.antt =====
-- src/wordsworth/originals_store.py: `put_original` and `get_original` over the object store.
use wordsworth.Prelude.{
  ℕ, suc, String, Bool, true, false, not, Option, none, some, List, [], ◌∷◌, ◌==◌, nat_eq,
  string_eq, Outcome, ok, err, pure, raise, gets, modify, lift, ◌>>=◌, ◌>>◌, if◌then◌else◌, take,
}
use wordsworth.World.{Exc, Bytes}
use wordsworth.Objects
use wordsworth.Objects.{PutResult, wrote, unchanged, legacy}
use wordsworth.Pipeline.Services.{object_store_error, sealed_object_error}
use wordsworth.Originals.{Sealer, same_bytes, header_magic, header_key_id, seal, open_original}
use wordsworth.Originals.DocumentKeys.{DataKey, KeyRow, KeyService, Vt, row_of, unwrap, mint}

-- `_is_sealed`
unfoldable pub has_magic : Bytes → Bool
unfolding same_bytes
has_magic b = same_bytes (take 5 b) header_magic

abbrev pub stored_sealed : Option Bytes → Bool
unfolding has_magic
stored_sealed none = false
stored_sealed (some b) = has_magic b

unfoldable pub change_row : String → (KeyRow → KeyRow) → List KeyRow → List KeyRow
change_row k f [] = []
change_row k f (r ∷ rs) = if r.object_key == k then f r ∷ rs else r ∷ change_row k f rs

abbrev names_key : Outcome Exc Bytes → Bytes → Bool
unfolding same_bytes
names_key (ok i) key_id = same_bytes i key_id
names_key (err e) key_id = false

module _ (c : Sealer) (ks : KeyService) where
  -- `_seal_and_write`
  unfoldable pub seal_and_write : DataKey → String → Bytes → Vt (Unit {0})
  unfolding seal Objects.put change_row
  seal_and_write key k plain = do
    n ← gets (λ s. ks.nonce s.drawn)
    modify (λ s. record s { drawn = suc s.drawn })
    sealed ← lift (seal c n key.material key.key_id k plain)
    modify (λ s. record s {
      objects = Objects.put k sealed s.objects;
      rows = change_row k (λ r. record r { is_sealed = true }) s.rows;
    })

  -- The object is sealed with the key of the row that is there.
  unfoldable pub reseal : String → Bytes → Vt PutResult
  unfolding unwrap seal_and_write
  reseal k plain = do key ← unwrap ks k; seal_and_write key k plain; pure wrote

  -- The object is sealed with a key of its own.
  unfoldable pub seal_new : (ℕ → String) → ℕ → String → Bytes → Vt PutResult
  unfolding mint seal_and_write
  seal_new domain_of document_id k plain = do
    key ← mint ks document_id k (domain_of document_id)
    seal_and_write key k plain
    pure wrote

  -- A sealed object whose row is there: its header names the row's key, or it is sealed anew.
  unfoldable pub put_sealed : ℕ → String → Bytes → KeyRow → Outcome Exc Bytes → Vt PutResult
  unfolding change_row reseal same_bytes
  put_sealed document_id k plain r (err e) = raise e
  put_sealed document_id k plain r (ok named) =
      if not (same_bytes named r.key_id)
      then reseal k plain
      else modify (λ s. record s {
        rows = change_row k (λ r. record r { document_id = document_id }) s.rows;
      })
        >> pure unchanged

  -- What a put does, by the row and what is stored.
  unfoldable pub put_by :
      (ℕ → String) → ℕ → String → Bytes → Option KeyRow → Option Bytes → Vt PutResult
  unfolding put_sealed reseal seal_new header_key_id has_magic
  put_by domain_of d k plain (some r) none = reseal k plain
  put_by domain_of d k plain none none = seal_new domain_of d k plain
  put_by domain_of d k plain (some r) (some b) =
      if has_magic b
      then put_sealed d k plain r (header_key_id b)
      else if r.is_sealed
      then raise sealed_object_error
      else pure legacy
  put_by domain_of d k plain none (some b) =
      if has_magic b then seal_new domain_of d k plain else pure legacy

  -- `put_original`; `domain_of` is `document_domain`
  unfoldable pub put_original : (ℕ → String) → ℕ → String → Bytes → Vt PutResult
  unfolding row_of put_by Objects.get_raw
  put_original domain_of d k plain = do
    row ← gets (λ s. row_of k s.rows)
    stored ← gets (λ s. Objects.get_raw k s.objects)
    put_by domain_of d k plain row stored

  abbrev recorded_sealed : Option KeyRow → Bool
  recorded_sealed none = false
  recorded_sealed (some r) = r.is_sealed

  -- What a get does with what is stored.
  unfoldable pub get_by : String → Option KeyRow → Bytes → Vt Bytes
  unfolding has_magic unwrap open_original
  get_by k row b =
      if has_magic b
      then unwrap ks k >>= (λ key. lift (open_original c key.material key.key_id k b))
      else if recorded_sealed row
      then raise sealed_object_error
      else pure b

  -- `get_original`
  unfoldable pub get_original : String → Vt Bytes
  unfolding row_of get_by Objects.get_raw
  get_original k = do
    row ← gets (λ s. row_of k s.rows)
    stored ← gets (λ s. Objects.get_raw k s.objects)
    elim stored [ none ↦ raise object_store_error | some b ↦ get_by k row b ]
