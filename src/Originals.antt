-- ===== src/Originals.antt =====
-- src/wordsworth/originals_envelope.py: an original sealed under its own key. AESGCM, `os.urandom`
-- and utf-8 are the parameter `Sealer`; a key id is held as its ASCII bytes.
pub mod Opened
pub mod DocumentKeys
pub mod Store
pub mod Stored
use wordsworth.Prelude.{
  ℕ, suc, ◌+◌, String, ◌≡◌, Bool, true, false, not, ◌||◌, Option, none, some, List, [], ◌∷◌, ◌++◌,
  ◌==◌, nat_eq, Outcome, ok, err, length, take, drop, ltb, if◌then◌else◌,
}
use wordsworth.World.{Exc, Bytes, value_error}

pub record Sealer : Type 0 where
  -- `s.encode("utf-8")`
  pub utf8 : String → Bytes
  -- `AESGCM(key).encrypt(nonce, data, aad)` and `decrypt`
  pub encrypt : Bytes → Bytes → Bytes → Bytes → Bytes
  pub decrypt : Bytes → Bytes → Bytes → Bytes → Outcome Exc Bytes

-- What AESGCM promises: what was encrypted decrypts under the same key, nonce and associated data.
pub record IsSealer (c : Sealer) : Type 0 where
  pub opens : (k n plain extra : Bytes) → c.decrypt k n (c.encrypt k n plain extra) extra ≡ ok plain

-- Equality of byte sequences.
unfoldable pub same_bytes : Bytes → Bytes → Bool
same_bytes [] [] = true
same_bytes (a ∷ xs) (b ∷ ys) = let rest = same_bytes xs ys in if a == b then rest else false
same_bytes _ _ = false

-- `HEADER_MAGIC`, `VERSION` and the lengths
abbrev pub header_magic : Bytes
header_magic = 87 ∷ 87 ∷ 69 ∷ 78 ∷ 67 ∷ []

abbrev pub version : ℕ
version = 1

abbrev pub key_id_length : ℕ
key_id_length = 12

abbrev pub nonce_length : ℕ
nonce_length = 12

abbrev pub key_id_start : ℕ
key_id_start = 6

abbrev pub nonce_start : ℕ
nonce_start = 18

abbrev pub header_length : ℕ
header_length = 30

-- `_AAD_PREFIX`: "wordsworth-original/1"
abbrev pub aad_prefix : String
aad_prefix = "wordsworth-original/1"

module _ (c : Sealer) where
  -- `_aad`
  unfoldable pub aad : String → Bytes → Bytes
  aad object_key key_id = c.utf8 aad_prefix ++ (c.utf8 object_key ++ key_id)

  -- `seal`, with the nonce that is drawn
  unfoldable pub seal : Bytes → Bytes → Bytes → String → Bytes → Outcome Exc Bytes
  unfolding aad
  seal nonce dek key_id object_key plaintext =
      if not (length key_id == key_id_length)
      then err value_error
      else ok (
          header_magic
          ++ (version
              ∷ (key_id ++ (nonce ++ c.encrypt dek nonce plaintext (aad object_key key_id)))))

-- The byte at the place, which is there.
unfoldable pub byte_at : ℕ → Bytes → Option ℕ
byte_at n [] = none
byte_at ℕ.zero (b ∷ bs) = some b
byte_at (suc n) (b ∷ bs) = byte_at n bs

abbrev is_version : Option ℕ → Bool
is_version none = false
is_version (some b) = b == version

-- `header_key_id`
unfoldable pub header_key_id : Bytes → Outcome Exc Bytes
unfolding same_bytes byte_at
header_key_id sealed =
    if ltb (length sealed) header_length || not (same_bytes (take 5 sealed) header_magic)
    then err value_error
    else if not (is_version (byte_at 5 sealed))
    then err value_error
    else ok (take 12 (drop key_id_start sealed))

module _ (c : Sealer) where
  -- What `open` does once the header named a key id.
  abbrev pub open_named : Bytes → Bytes → String → Bytes → Outcome Exc Bytes → Outcome Exc Bytes
  unfolding aad same_bytes
  open_named dek key_id object_key sealed (err e) = err e
  open_named dek key_id object_key sealed (ok actual) =
      if not (same_bytes actual key_id)
      then err value_error
      else c.decrypt dek (take 12 (drop nonce_start sealed)) (drop header_length sealed)
          (aad c object_key key_id)

  -- `open`
  unfoldable pub open_original : Bytes → Bytes → String → Bytes → Outcome Exc Bytes
  unfolding header_key_id
  open_original dek key_id object_key sealed =
      open_named dek key_id object_key sealed (header_key_id sealed)
