-- ===== src/Keys/Rotation.antt =====
-- `reencrypt` of src/wordsworth/mapping_store.py and `rotate_keys` of src/wordsworth/key_lifecycle.py.
use wordsworth.Prelude.{
  ℕ, suc, String, true, false, List, [], ◌∷◌, ◌++◌, ◌==◌, string_eq, Outcome, ok, err, pure, modify,
  ◌>>=◌, ◌>>◌,
}
use wordsworth.Json.{str, num, end, field}
use wordsworth.World.{Exc, PiiMapping}
use wordsworth.Keys.{Key, Crypto, Ks, key, current_key, rotate}
use wordsworth.Keys.Escrow.{Sealing, deposit}

-- What a pass over the mappings leaves: how many it re-encrypted or what it raised, the mappings,
-- and how many nonces were drawn by then.
pub record Pass : Type 0 where
  pub result : Outcome Exc ℕ
  pub rows : List PiiMapping
  pub drawn : ℕ

abbrev pub counted_row : Outcome Exc ℕ → Outcome Exc ℕ
counted_row (ok n) = ok (suc n)
counted_row (err e) = err e

module _ (c : Crypto) (old new : Key) where
  -- The mapping under the new key, with the nonce that is drawn.
  abbrev pub renewed : ℕ → String → PiiMapping → PiiMapping
  renewed drawn plaintext m = record m {
    ciphertext = c.seal new.material (c.nonce drawn) plaintext;
    nonce = c.nonce drawn;
    key_id = new.id;
  }

  -- One row of the old key before the rest: it is re-encrypted, or decrypting it raises.
  abbrev pub renew_row : PiiMapping → List PiiMapping → ℕ → Outcome Exc String → Pass → Pass
  renew_row m ms drawn (err e) rest = record { result = err e; rows = m ∷ ms; drawn = drawn }
  renew_row m ms drawn (ok plaintext) rest = record {
    result = counted_row rest.result;
    rows = renewed drawn plaintext m ∷ rest.rows;
    drawn = rest.drawn;
  }

  -- The loop of `reencrypt`
  unfoldable pub reencrypt_each : List PiiMapping → ℕ → Pass
  reencrypt_each [] drawn = record { result = ok 0; rows = []; drawn = drawn }
  reencrypt_each (m ∷ ms) drawn = elim (m.key_id == old.id) [
    | false ↦ let rest = reencrypt_each ms drawn in record rest { rows = m ∷ rest.rows }
    | true ↦
        renew_row m ms drawn (c.unseal old.material m.nonce m.ciphertext)
          (reencrypt_each ms (suc drawn))
  ]

module _ (c : Crypto) where
  unfoldable pub reencrypt : String → String → Ks ℕ
  unfolding key reencrypt_each
  reencrypt old_id new_id = do
    old ← key old_id
    new ← key new_id
    λ s.
        let p = reencrypt_each c old new s.mappings s.drawn in
        (p.result, record s { mappings = p.rows; drawn = p.drawn })

  -- `rotation`: the event of a rotation
  unfoldable pub rotation : String → String → ℕ → String → String → Ks (Unit {0})
  rotation old_key_id new_key_id count actor scope = modify (λ s. record s {
    lifecycle =
        s.lifecycle
        ++ record {
          action = "key_rotation";
          actor = actor;
          payload = field "old_key_id" (str old_key_id) (
              field "scope" (str scope) (
                field "new_key_id" (str new_key_id) (field "entries_reencrypted" (num count) end)));
        }
          ∷ [];
  })

  -- `rotate_keys`, which deposits for the n-th time
  unfoldable pub rotate_keys : Sealing → ℕ → String → String → Ks Key
  unfolding current_key rotate deposit reencrypt rotation
  rotate_keys e n actor scope = do
    old ← current_key c scope
    new ← rotate c scope
    deposit e n new
    count ← reencrypt old.id new.id
    rotation old.id new.id count actor scope
    pure new
