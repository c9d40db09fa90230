-- ===== src/Keys/Pseudonyms/Stored.antt =====
-- `pseudonym` stores an original that a reveal of its token gives back.
use Prim.Native.Char.{Char}
use Prim.Native.String.{String, ◌++◌, [], ◌∷◌, count}
use mathlib.Core.List.{List, [] as nil, ◌∷◌ as cons}
use text.Mathlib.TextLemmas.{nil-append, cons-append, length-cons, length-append}
use wordsworth.Prelude.{
  suc, ◌+◌, ◌≡◌, refl, Bool, true, false, Option, none, some, ok, arith, ap, ◌∙◌, ◌==◌, string_eq,
  eq_iff, beq_refl, if◌then◌else◌, or_else,
}
use wordsworth.Text.{upper, lower}
use wordsworth.Normalization.{Unicode}
use wordsworth.World.{Bytes, PiiMapping}
use wordsworth.Tokens.{label_of}
use wordsworth.Tokens.Reveal.{Vault, permits, gates, reveal}
use wordsworth.Keys.{
  Key, Crypto, IsCipher, Keystore, scope_for, current_id, find_key, encrypt, get_mapping,
  put_mapping,
}
use wordsworth.Keys.Rotated.{current_key_known}
use wordsworth.Keys.Pseudonyms.{token, pseudonym_of, pseudonym, vault_of, mapping_for}
use wordsworth.Keys.Pseudonyms.RoundTrip.{
  is_label, is_hex, token_length-token, count-hex, reveal-one,
}

get_mapping-put_mapping :
    (m : PiiMapping) (q : String) (ms : List PiiMapping)
    → get_mapping q (put_mapping m ms)
      ≡ or_else (get_mapping q ms) (if m.pseudonym == q then some m else none)
unfolding get_mapping put_mapping
get_mapping-put_mapping m q nil = ground arith
get_mapping-put_mapping m q (cons n ms) = ground (
  arith,
  get_mapping-put_mapping m q ms,
  eq_iff n.pseudonym m.pseudonym,
  eq_iff n.pseudonym q,
  eq_iff m.pseudonym q,
)

-- The text of a label may stand in a token.
unfoldable pub is_name : String → Bool
unfolding is_label
is_name [] = false
is_name (c ∷ l) = is_label (c ∷ l)

token_shape :
    (c : Char) (l d : String)
    → ("[" ++ ((c ∷ l) ++ (":" ++ (d ++ "]")))) ≡ ("[" ∷ c ∷ (l ++ (":" ∷ (d ++ ("]" ∷ [])))))
token_shape c l d =
    cons-append "[" [] ((c ∷ l) ++ (":" ++ (d ++ "]")))
    ∙ ap (λ s. "[" ∷ s)
        (nil-append _
          ∙ cons-append c l (":" ++ (d ++ "]"))
          ∙ ap (λ s. c ∷ (l ++ s))
              (cons-append ":" [] (d ++ "]") ∙ ap (λ s. ":" ∷ s) (nil-append _)))

shape_count :
    (c : Char) (l d : String)
    → is_hex 8 d ≡ true
    → count l + 11 ≡ count (c ∷ (l ++ (":" ∷ (d ++ ("]" ∷ [])))))
shape_count c l d e = omega (
  arith,
  length-cons c (l ++ (":" ∷ (d ++ ("]" ∷ [])))),
  length-append l (":" ∷ (d ++ ("]" ∷ []))),
  length-cons ":" (d ++ ("]" ∷ [])),
  length-append d ("]" ∷ []),
  length-cons "]" [],
  count-hex 8 d e,
)

module _ (v : Vault) (allowed registered : Option (List String)) where
  reveal-built :
      (name d value : String) (k : Bytes) (m : PiiMapping)
      → is_name name ≡ true
      → is_hex 8 d ≡ true
      → gates v allowed registered ("[" ++ (name ++ (":" ++ (d ++ "]")))) ≡ some (k, m)
      → v.decrypt k m.ciphertext m.nonce ≡ ok value
      → reveal v allowed registered ("[" ++ (name ++ (":" ++ (d ++ "]"))))
        ≡ ok (value, cons ("[" ++ (name ++ (":" ++ (d ++ "]")))) nil)
  unfolding is_name
  reveal-built [] d value k m e f g o = absurd (cc e)
  reveal-built (c ∷ l) d value k m e f g o = rw (token_shape c l d) (
      reveal-one v allowed registered "[" (c ∷ (l ++ (":" ∷ (d ++ ("]" ∷ []))))) (count l + 11) k m
        value (token_length-token c l d [] e f ∙ ap some (omega arith)) (shape_count c l d f)
        (rw (token_shape c l d) at g) o)

module _ (c : Crypto) (u : Unicode) (digest : Bytes → String → String) (sound : IsCipher c)
    (domain given value scope : String) (k : Key) (s : Keystore) where
  abbrev pub its_token : String
  its_token = pseudonym_of c u digest k (lower given) value

  abbrev pub its_row : PiiMapping
  its_row =
      mapping_for c u digest its_token k
        (c.seal k.material (c.nonce s.drawn) value, c.nonce s.drawn)

  abbrev stored : Keystore
  stored = record s { drawn = suc s.drawn; mappings = put_mapping its_row s.mappings }

  pseudonym_run :
      scope_for domain (upper (lower given)) ≡ ok scope
      → current_id scope s.current ≡ some k.id
      → find_key k.id s.keys ≡ some k
      → pseudonym c u digest domain given value s ≡ (ok its_token, stored)
  unfolding pseudonym encrypt
  pseudonym_run scoped known there = rw (scoped, current_key_known c scope k s known there) refl

  gates_stored :
      (allowed registered : Option (List String))
      → find_key k.id s.keys ≡ some k
      → get_mapping its_token s.mappings ≡ none
      → permits registered its_token ≡ true
      → permits allowed (label_of its_token) ≡ true
      → gates (vault_of c stored) allowed registered its_token ≡ some (k.material, its_row)
  unfolding gates vault_of
  gates_stored allowed registered there fresh belongs granted =
      let row : get_mapping its_token stored.mappings ≡ some its_row =
        get_mapping-put_mapping its_row its_token s.mappings
        ∙ rw (fresh, beq_refl its_token) refl in
      rw (belongs, granted, row, there) refl

  -- A value that is pseudonymised in a scope that has a key, under a token that had no mapping, is
  -- what a reveal of the token gives back, if it belongs to the document and is of an allowed type,
  -- where the label is of the letters of a token, the digest is eight hexadecimal digits and the
  -- cipher decrypts what it encrypted.
  pub reveal-pseudonym :
      (allowed registered : Option (List String))
      → scope_for domain (upper (lower given)) ≡ ok scope
      → current_id scope s.current ≡ some k.id
      → find_key k.id s.keys ≡ some k
      → is_name (upper (lower given)) ≡ true
      → is_hex 8 (token c u digest k.material (lower given) value) ≡ true
      → get_mapping its_token s.mappings ≡ none
      → permits registered its_token ≡ true
      → permits allowed (label_of its_token) ≡ true
      → ((pseudonym c u digest domain given value s).0 ≡ ok its_token)
        × (reveal
              (vault_of c (pseudonym c u digest domain given value s).1)
              allowed
              registered
              its_token
            ≡ ok (value, cons its_token nil))
  unfolding pseudonym_of vault_of
  reveal-pseudonym allowed registered scoped known there named hex fresh belongs granted =
      rw (pseudonym_run scoped known there) (
        refl,
        reveal-built (vault_of c stored) allowed registered (upper (lower given))
            (token c u digest k.material (lower given) value) value k.material its_row named hex
            (gates_stored allowed registered there fresh belongs granted)
            (sound.opens k.material (c.nonce s.drawn) value),
      )
