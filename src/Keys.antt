-- ===== src/Keys.antt =====
-- src/wordsworth/keys.py, crypto.py and mapping_store.py: `InMemoryKeyProvider`, the cipher and
-- `InMemoryMappingStore`. What the code takes from `os.urandom`, sha256 and AESGCM is the parameter
-- `Crypto`: the n-th key that is minted, the n-th nonce that is drawn, and the cipher.
pub mod Escrow
pub mod Rotation
pub mod Clear
pub mod Rotated
pub mod Pseudonyms
use Prim.Native.Char.{code}
use Prim.Native.String.{◌++◌ as append_string, [] as empty, ◌∷◌ as cons_text}
use wordsworth.Prelude.{
  ℕ, suc, String, ◌≡◌, Bool, true, false, not, ◌||◌, Option, none, some, List, [], ◌∷◌, ◌++◌, ◌==◌,
  nat_eq, string_eq, option_eq, Exec, Outcome, ok, err, pure, raise, gets, modify, lift, require,
  ◌>>=◌, ◌>>◌, if◌then◌else◌,
}
use wordsworth.World.{Exc, Bytes, PiiMapping, LifecycleEvent, value_error, key_error}

pub record Key : Type 0 where
  pub id : String
  pub material : Bytes

pub record Crypto : Type 0 where
  -- `_mint()`, by how many keys were minted before
  pub mint : ℕ → Key
  -- `os.urandom(12)`, by how many nonces were drawn before
  pub nonce : ℕ → Bytes
  -- `AESGCM(key).encrypt(nonce, plaintext, None)` of the text in utf-8
  pub seal : Bytes → Bytes → String → Bytes
  -- `AESGCM(key).decrypt(nonce, ciphertext, None)` as a text
  pub unseal : Bytes → Bytes → Bytes → Outcome Exc String

-- What AESGCM promises: what was encrypted decrypts under the same key and nonce.
pub record IsCipher (c : Crypto) : Type 0 where
  pub opens : (k n : Bytes) (s : String) → c.unseal k n (c.seal k n s) ≡ ok s

-- A sealed copy of a key, as `AgeEscrow` holds it.
pub record Envelope : Type 0 where
  pub ephemeral_pub : Bytes
  pub nonce : Bytes
  pub ciphertext : Bytes

-- What the provider, the mapping store, the escrow and the key-lifecycle stream hold.
pub record Keystore : Type 0 where
  pub keys : List Key
  -- (scope, id of its current key)
  pub current : List (String × String)
  pub minted : ℕ
  pub drawn : ℕ
  pub mappings : List PiiMapping
  pub escrowed : List (String × Envelope)
  pub lifecycle : List LifecycleEvent

abbrev pub Ks : Type 0 → Type 0
Ks A = Exec Exc Keystore A

-- `DEFAULT_SCOPE`, which is `DEFAULT_DOMAIN` too
abbrev pub default_scope : String
default_scope = "_global"

unfoldable pub has_slash : String → Bool
has_slash empty = false
has_slash (cons_text c s) = code c == 47 || has_slash s

unfoldable pub scope_for : String → String → Outcome Exc String
unfolding has_slash
scope_for domain pii_type =
    if has_slash domain || has_slash pii_type || domain == "" || pii_type == ""
    then err value_error
    else ok (
        if domain == default_scope
        then pii_type
        else append_string domain (append_string "/" pii_type))

-- `self._keys[key_id]`
unfoldable pub find_key : String → List Key → Option Key
find_key i [] = none
find_key i (k ∷ ks) = if k.id == i then some k else find_key i ks

-- `self._keys[key.id] = key`
unfoldable pub put_key : Key → List Key → List Key
put_key k [] = k ∷ []
put_key k (l ∷ ks) = if l.id == k.id then k ∷ ks else l ∷ put_key k ks

-- `self._current.get(scope)`
unfoldable pub current_id : String → List (String × String) → Option String
current_id scope [] = none
current_id scope ((t, i) ∷ cs) = if t == scope then some i else current_id scope cs

unfoldable pub set_current : String → String → List (String × String) → List (String × String)
set_current scope i [] = (scope, i) ∷ []
set_current scope i ((t, j) ∷ cs) =
    if t == scope then (scope, i) ∷ cs else (t, j) ∷ set_current scope i cs

-- `key`
unfoldable pub key : String → Ks Key
unfolding find_key
key i s = elim (find_key i s.keys) [ none ↦ (err key_error, s) | some k ↦ (ok k, s) ]

-- `add`
unfoldable pub add : Key → Ks (Unit {0})
unfolding put_key
add k = modify (λ s. record s { keys = put_key k s.keys })

module _ (c : Crypto) where
  -- A fresh key, put in as the current one of the scope.
  unfoldable pub mint_current : String → Ks Key
  unfolding put_key set_current
  mint_current scope s =
      let fresh = c.mint s.minted in
      (
        ok fresh,
        record s {
          keys = put_key fresh s.keys;
          current = set_current scope fresh.id s.current;
          minted = suc s.minted;
        },
      )

  unfoldable pub current_key : String → Ks Key
  unfolding current_id mint_current key
  current_key scope = do
    known ← gets (λ s. current_id scope s.current)
    elim known [ none ↦ mint_current scope | some i ↦ key i ]

  unfoldable pub rotate : String → Ks Key
  unfolding current_key mint_current
  rotate scope = do current_key scope; mint_current scope

  -- `encrypt`: the ciphertext and its nonce
  unfoldable pub encrypt : Bytes → String → Ks (Bytes × Bytes)
  encrypt material plaintext s = (
    ok (c.seal material (c.nonce s.drawn) plaintext, c.nonce s.drawn),
    record s { drawn = suc s.drawn },
  )

  unfoldable pub decrypt : Bytes → Bytes → Bytes → Outcome Exc String
  decrypt material ciphertext nonce = c.unseal material nonce ciphertext

-- `InMemoryMappingStore.get`
unfoldable pub get_mapping : String → List PiiMapping → Option PiiMapping
get_mapping p [] = none
get_mapping p (m ∷ ms) = if m.pseudonym == p then some m else get_mapping p ms

-- `setdefault`: the first write of a pseudonym stays.
unfoldable pub put_mapping : PiiMapping → List PiiMapping → List PiiMapping
put_mapping m [] = m ∷ []
put_mapping m (n ∷ ms) = if n.pseudonym == m.pseudonym then n ∷ ms else n ∷ put_mapping m ms
