-- ===== src/Keys/Escrow.antt =====
-- src/wordsworth/escrow.py: `AgeEscrow` seals a copy of each key to one recipient. X25519, HKDF and
-- ChaCha20Poly1305 are the parameter `Sealing`.
use wordsworth.Prelude.{
  ℕ, String, ◌≡◌, refl, Option, none, some, List, [], ◌∷◌, ◌==◌, string_eq, Outcome, ok, err,
  modify, if◌then◌else◌, arith, Bool-cases, inl, inr, ap, ◌∙◌, eq_iff,
}
use wordsworth.World.{Exc, Bytes, key_error}
use wordsworth.Keys.{Key, Envelope, Keystore, Ks}

pub record Sealing : Type 0 where
  -- the public half of the n-th ephemeral key, and its exchange with the recipient, derived
  pub ephemeral : ℕ → Bytes
  pub derived : ℕ → Bytes
  -- the identity's exchange with a public key, derived
  pub exchanged : Bytes → Bytes
  pub nonce : ℕ → Bytes
  -- encryption under a key and a nonce, with the associated data
  pub seal : Bytes → Bytes → Bytes → String → Bytes
  pub unseal : Bytes → Bytes → Bytes → String → Outcome Exc Bytes

-- What the primitives promise: the two exchanges agree, and what was sealed opens.
pub record IsSealing (e : Sealing) : Type 0 where
  pub agree : (n : ℕ) → e.exchanged (e.ephemeral n) ≡ e.derived n
  pub opens : (k n m : Bytes) (a : String) → e.unseal k n (e.seal k n m a) a ≡ ok m

-- `self._vault[key.id] = envelope`
unfoldable pub put_envelope :
    String → Envelope → List (String × Envelope) → List (String × Envelope)
put_envelope i v [] = (i, v) ∷ []
put_envelope i v ((j, u) ∷ vs) = if j == i then (i, v) ∷ vs else (j, u) ∷ put_envelope i v vs

-- `self._vault.get(key_id)`
unfoldable pub envelope_of : String → List (String × Envelope) → Option Envelope
envelope_of i [] = none
envelope_of i ((j, v) ∷ vs) = if j == i then some v else envelope_of i vs

module _ (e : Sealing) where
  -- A key sealed with the n-th ephemeral key.
  abbrev pub sealed_copy : ℕ → Key → Envelope
  sealed_copy n k = record {
    ephemeral_pub = e.ephemeral n;
    nonce = e.nonce n;
    ciphertext = e.seal (e.derived n) (e.nonce n) k.material k.id;
  }

  -- `deposit`, the n-th
  unfoldable pub deposit : ℕ → Key → Ks (Unit {0})
  unfolding put_envelope
  deposit n k = modify (λ s. record s { escrowed = put_envelope k.id (sealed_copy n k) s.escrowed })

  abbrev named : String → Outcome Exc Bytes → Outcome Exc Key
  named i (ok m) = ok (record { id = i; material = m })
  named i (err x) = err x

  -- The key that an envelope holds, if there is one.
  abbrev pub opened : String → Option Envelope → Outcome Exc Key
  opened i none = err key_error
  opened i (some v) = named i (e.unseal (e.exchanged v.ephemeral_pub) v.nonce v.ciphertext i)

  -- `recover`
  unfoldable pub recover : String → Ks Key
  unfolding envelope_of
  recover i s = (opened i (envelope_of i s.escrowed), s)

envelope_of-put_envelope :
    (i j : String) (v : Envelope) (vs : List (String × Envelope))
    → envelope_of j (put_envelope i v vs) ≡ (if i == j then some v else envelope_of j vs)
unfolding envelope_of put_envelope
envelope_of-put_envelope i j v [] = ground arith
envelope_of-put_envelope i j v ((k, u) ∷ vs) =
    ground (arith, envelope_of-put_envelope i j v vs, eq_iff k i, eq_iff k j, eq_iff i j)

opened-sealed_copy :
    (e : Sealing) (n : ℕ) (k : Key) → IsSealing e → opened e k.id (some (sealed_copy e n k)) ≡ ok k
opened-sealed_copy e n k sound =
    rw (sound.agree n, sound.opens (e.derived n) (e.nonce n) k.material k.id) refl

-- What was deposited of a key is recovered whole, where the two exchanges agree and what was sealed
-- opens; the deposits of other keys stay.
pub recover-deposit :
    (e : Sealing) (n : ℕ) (k : Key) (i : String) (s : Keystore)
    → IsSealing e
    → (recover e i (deposit e n k s).1).0 ≡ (if k.id == i then ok k else (recover e i s).0)
unfolding recover deposit
recover-deposit e n k i s sound =
    ap (opened e i) (envelope_of-put_envelope k.id i (sealed_copy e n k) s.escrowed)
    ∙ elim (Bool-cases (k.id == i)) [
      | inl same ↦
          let is : k.id ≡ i = (eq_iff k.id i).0 same in
          rw (same, ← is) (opened-sealed_copy e n k sound)
      | inr other ↦ rw other refl
    ]
