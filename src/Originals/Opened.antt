-- ===== src/Originals/Opened.antt =====
-- What was sealed opens, under its own key id alone.
use wordsworth.Prelude.{
  ℕ, zero, suc, String, ◌≡◌, ◌≢◌, refl, true, false, [], ◌∷◌, ◌++◌, nat_eq, ok, err, length, take,
  drop, ltb, arith, ap, sym, ◌∙◌, ◌↔◌, length-append, Bool-cases, inl, inr,
}
use mathlib.Core.List.{append_assoc}
use wordsworth.World.{Bytes, value_error}
use wordsworth.Originals.{
  Sealer, IsSealer, same_bytes, header_magic, version, aad, seal, byte_at, header_key_id,
  open_named, open_original,
}

pub same_bytes_iff : (a b : Bytes) → (same_bytes a b ≡ true) ↔ (a ≡ b)
unfolding same_bytes
same_bytes_iff [] [] = ground arith
same_bytes_iff [] (b ∷ ys) = ground arith
same_bytes_iff (a ∷ xs) [] = ground arith
same_bytes_iff (a ∷ xs) (b ∷ ys) = ground (arith, same_bytes_iff xs ys)

take-append : (n : ℕ) (xs ys : Bytes) → length xs ≡ n → take n (xs ++ ys) ≡ xs
take-append zero [] ys e = refl
take-append zero (x ∷ xs) ys e = absurd (omega arith)
take-append (suc n) [] ys e = absurd (omega arith)
take-append (suc n) (x ∷ xs) ys e = ap (λ r. x ∷ r) (take-append n xs ys (omega arith))

drop-append : (n : ℕ) (xs ys : Bytes) → length xs ≡ n → drop n (xs ++ ys) ≡ ys
drop-append zero [] ys e = refl
drop-append zero (x ∷ xs) ys e = absurd (omega arith)
drop-append (suc n) [] ys e = absurd (omega arith)
drop-append (suc n) (x ∷ xs) ys e = drop-append n xs ys (omega arith)

-- A header, its key id and nonce, and what follows.
abbrev laid_out : Bytes → Bytes → Bytes → Bytes
laid_out key_id nonce rest = header_magic ++ (version ∷ (key_id ++ (nonce ++ rest)))

long_enough :
    (key_id nonce rest : Bytes)
    → length key_id ≡ 12
    → length nonce ≡ 12
    → ltb (length (laid_out key_id nonce rest)) 30 ≡ false
long_enough key_id nonce rest k n =
    ground (arith, length-append key_id (nonce ++ rest), length-append nonce rest)

header_key_id-laid_out :
    (key_id nonce rest : Bytes)
    → length key_id ≡ 12
    → length nonce ≡ 12
    → header_key_id (laid_out key_id nonce rest) ≡ ok key_id
unfolding header_key_id same_bytes byte_at
header_key_id-laid_out key_id nonce rest k n =
    rw (take-append 12 key_id (nonce ++ rest) k, long_enough key_id nonce rest k n) refl

-- The bytes that `seal` writes.
abbrev pub sealed_form : Sealer → Bytes → Bytes → Bytes → String → Bytes → Bytes
sealed_form c nonce dek key_id object_key plaintext =
    laid_out key_id nonce (c.encrypt dek nonce plaintext (aad c object_key key_id))

module _ (c : Sealer) (nonce dek key_id : Bytes) (object_key : String) (plaintext : Bytes)
    (k : length key_id ≡ 12) (n : length nonce ≡ 12) where
  pub seal-form :
      seal c nonce dek key_id object_key plaintext
      ≡ ok (sealed_form c nonce dek key_id object_key plaintext)
  unfolding seal
  seal-form = rw k refl

  header_named : header_key_id (sealed_form c nonce dek key_id object_key plaintext) ≡ ok key_id
  header_named = header_key_id-laid_out key_id nonce _ k n

  pub open-form :
      IsSealer c
      → open_original c dek key_id object_key (sealed_form c nonce dek key_id object_key plaintext)
        ≡ ok plaintext
  unfolding open_original open_named
  open-form sound =
      let secret = c.encrypt dek nonce plaintext (aad c object_key key_id) in
      let sealed = laid_out key_id nonce secret in
      let nonce_back : take 12 (drop 18 sealed) ≡ nonce =
        ap (take 12) (drop-append 12 key_id (nonce ++ secret) k) ∙ take-append 12 nonce secret n in
      let secret_back : drop 30 sealed ≡ secret =
        ap (drop 24) (sym (append_assoc key_id nonce secret))
        ∙ drop-append 24 (key_id ++ nonce) secret (omega (arith, length-append key_id nonce)) in
      let mine : same_bytes key_id key_id ≡ true = (same_bytes_iff key_id key_id).1 refl in
      ap (open_named c dek key_id object_key sealed) header_named
      ∙ rw (mine, nonce_back, secret_back)
          (sound.opens dek nonce plaintext (aad c object_key key_id))

  open_refused :
      (other : Bytes)
      → other ≢ key_id
      → open_original c dek other object_key (sealed_form c nonce dek key_id object_key plaintext)
        ≡ err value_error
  unfolding open_original open_named
  open_refused other differ =
      let sealed = sealed_form c nonce dek key_id object_key plaintext in
      let not_mine : same_bytes key_id other ≡ false = elim (Bool-cases (same_bytes key_id other)) [
        | inl same ↦ absurd (differ (sym ((same_bytes_iff key_id other).0 same)))
        | inr other_id ↦ other_id
      ] in
      ap (open_named c dek other object_key sealed) header_named ∙ rw not_mine refl

-- A sealed original opens to its bytes under its own key and key id and for its own object, and its
-- header names the key id; under another key id it does not open. Its key id and nonce have twelve
-- bytes, and the cipher decrypts what it encrypted.
pub open-seal :
    (c : Sealer) (nonce dek key_id other : Bytes) (object_key : String) (plaintext : Bytes)
    → IsSealer c
    → length key_id ≡ 12
    → length nonce ≡ 12
    → other ≢ key_id
    → (sealed : Bytes) × (seal c nonce dek key_id object_key plaintext ≡ ok sealed)
      × (header_key_id sealed ≡ ok key_id)
      × (open_original c dek key_id object_key sealed ≡ ok plaintext)
      × (open_original c dek other object_key sealed ≡ err value_error)
open-seal c nonce dek key_id other object_key plaintext sound k n differ = (
  sealed_form c nonce dek key_id object_key plaintext,
  seal-form c nonce dek key_id object_key plaintext k n,
  header_named c nonce dek key_id object_key plaintext k n,
  open-form c nonce dek key_id object_key plaintext k n sound,
  open_refused c nonce dek key_id object_key plaintext k n other differ,
)
