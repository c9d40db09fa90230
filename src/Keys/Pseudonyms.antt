-- ===== src/Keys/Pseudonyms.antt =====
-- `Pseudonymizer.pseudonym` of src/wordsworth/pseudonymizer.py: the token of a value, with its
-- original stored in cipher. `digest` is the first eight characters of the hexadecimal HMAC-SHA256.
pub mod RoundTrip
pub mod Stored
use Prim.Native.String.{◌++◌ as append_string}
use wordsworth.Prelude.{
  ℕ, suc, String, Option, none, some, List, Exec, Outcome, ok, err, pure, gets, modify, lift, ◌>>=◌,
  ◌>>◌,
}
use wordsworth.Text.{lower, upper}
use wordsworth.Normalization.{Unicode, normalize, profile_version}
use wordsworth.World.{Bytes, PiiMapping}
use wordsworth.Keys.{
  Key, Crypto, Keystore, Ks, scope_for, current_key, encrypt, find_key, get_mapping, put_mapping,
}
use wordsworth.Tokens.Reveal.{Vault}

module _ (c : Crypto) (u : Unicode) (digest : Bytes → String → String) where
  -- `_token`
  unfoldable pub token : Bytes → String → String → String
  unfolding normalize
  token material label value =
      digest material (append_string label (append_string ":" (normalize u label value)))

  -- `f"[{label.upper()}:{_token(…)}]"`
  unfoldable pub pseudonym_of : Key → String → String → String
  unfolding token upper
  pseudonym_of k label value = append_string "[" (
      append_string (upper label)
        (append_string ":" (append_string (token k.material label value) "]")))

  -- The ciphertext of a value under its pseudonym.
  abbrev pub mapping_for : String → Key → Bytes × Bytes → PiiMapping
  mapping_for p k (ciphertext, nonce) = record {
    pseudonym = p;
    key_id = k.id;
    ciphertext = ciphertext;
    nonce = nonce;
    norm_version = some profile_version;
  }

  unfoldable pub pseudonym : String → String → String → Ks String
  unfolding lower upper scope_for current_key pseudonym_of encrypt put_mapping
  pseudonym domain given value = do
    let label = lower given
    scope ← lift (scope_for domain (upper label))
    k ← current_key c scope
    let p = pseudonym_of k label value
    sealed ← encrypt c k.material value
    modify (λ s. record s { mappings = put_mapping (mapping_for p k sealed) s.mappings })
    pure p

abbrev material_of : Option Key → Option Bytes
material_of none = none
material_of (some k) = some k.material

-- What a reveal takes from the provider and the store as they are.
unfoldable pub vault_of : Crypto → Keystore → Vault
unfolding get_mapping find_key
vault_of c s = record {
  get_mapping = λ p. get_mapping p s.mappings;
  get_key = λ i. material_of (find_key i s.keys);
  decrypt = λ material ciphertext nonce. c.unseal material nonce ciphertext;
}
