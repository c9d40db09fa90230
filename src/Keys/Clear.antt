-- ===== src/Keys/Clear.antt =====
-- What a mapping says in clear, and what the changes of the keys leave of it.
use wordsworth.Prelude.{
  ℕ, suc, String, ◌≡◌, refl, Bool, true, false, not, ◌&&◌, ◌||◌, Option, none, some, List, [], ◌∷◌,
  ◌==◌, string_eq, Outcome, ok, err, if◌then◌else◌, arith, eq_iff,
}
use wordsworth.World.{Exc, PiiMapping}
use wordsworth.Keys.{Key, Crypto, IsCipher, Keystore, find_key, put_key, get_mapping}
use wordsworth.Keys.Rotation.{reencrypt_each, renew_row}

pub find_key-id : (i : String) (ks : List Key) (k : Key) → find_key i ks ≡ some k → k.id ≡ i
unfolding find_key
find_key-id i [] k e = cc
find_key-id i (l ∷ ks) k e = ground (arith, find_key-id i ks k, eq_iff l.id i)

pub find_key-put_key :
    (k : Key) (i : String) (ks : List Key)
    → find_key i (put_key k ks) ≡ (if k.id == i then some k else find_key i ks)
unfolding find_key put_key
find_key-put_key k i [] = ground arith
find_key-put_key k i (l ∷ ks) =
    ground (arith, find_key-put_key k i ks, eq_iff l.id k.id, eq_iff l.id i, eq_iff k.id i)

abbrev pub as_option : Outcome Exc String → Option String
as_option (ok s) = some s
as_option (err e) = none

abbrev pub is_ok : Outcome Exc String → Bool
is_ok (ok s) = true
is_ok (err e) = false

module _ (c : Crypto) where
  -- The text of a mapping under the key that it names.
  abbrev pub text_under : PiiMapping → Option Key → Option String
  text_under m none = none
  text_under m (some k) = as_option (c.unseal k.material m.nonce m.ciphertext)

  abbrev pub text_of : List Key → PiiMapping → Option String
  text_of ks m = text_under m (find_key m.key_id ks)

  abbrev pub text_if : List Key → Option PiiMapping → Option String
  text_if ks none = none
  text_if ks (some m) = text_of ks m

  -- What a pseudonym stands for.
  unfoldable pub clear : String → Keystore → Option String
  unfolding get_mapping
  clear p s = text_if s.keys (get_mapping p s.mappings)

  -- Every mapping of the key decrypts under it.
  unfoldable pub readable : Key → List PiiMapping → Bool
  readable k [] = true
  readable k (m ∷ ms) =
      (not (m.key_id == k.id) || is_ok (c.unseal k.material m.nonce m.ciphertext)) && readable k ms

-- How many mappings name the key.
unfoldable pub uses : String → List PiiMapping → ℕ
uses i [] = 0
uses i (m ∷ ms) = let rest = uses i ms in if m.key_id == i then suc rest else rest

-- One row at a time.
module _ (c : Crypto) (sound : IsCipher c) (old new : Key) where
  pub pass_other :
      (m : PiiMapping) (ms : List PiiMapping) (drawn : ℕ)
      → (m.key_id == old.id) ≡ false
      → reencrypt_each c old new (m ∷ ms) drawn
        ≡ (let rest = reencrypt_each c old new ms drawn in record rest { rows = m ∷ rest.rows })
  unfolding reencrypt_each
  pass_other m ms drawn other = rw (reencrypt_each, other) refl

  pub pass_old :
      (m : PiiMapping) (ms : List PiiMapping) (drawn : ℕ) (t : String)
      → (m.key_id == old.id) ≡ true
      → c.unseal old.material m.nonce m.ciphertext ≡ ok t
      → reencrypt_each c old new (m ∷ ms) drawn
        ≡ renew_row c old new m ms drawn (ok t) (reencrypt_each c old new ms (suc drawn))
  unfolding reencrypt_each
  pass_old m ms drawn t his opens = rw (reencrypt_each, his, opens) refl
