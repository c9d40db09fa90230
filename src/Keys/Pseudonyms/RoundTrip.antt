-- ===== src/Keys/Pseudonyms/RoundTrip.antt =====
-- What was pseudonymised is revealed: a token's text is read back from its mapping.
use Prim.Native.Char.{Char}
use Prim.Native.String.{String, ◌++◌, [], ◌∷◌, count}
use mathlib.Core.List.{List, [] as nil, ◌∷◌ as cons}
use mathlib.Core.Option
use wordsworth.Prelude.{
  ℕ, zero, suc, ◌+◌, ◌-◌, ◌≡◌, refl, Bool, true, false, ◌&&◌, Option, some, ok, arith, ap, ◌∙◌,
  nat_eq, string_eq,
}
use text.Mathlib.TextLemmas.{nil-append, cons-append, append-nil, length-cons}
use wordsworth.World.{Bytes, PiiMapping}
use wordsworth.Tokens.Reveal.{Vault, gates, reveal, reveal_from, replaced}
use wordsworth.Tokens.{is_label_char, is_hex_char, hex_close, label_length, token_length, take_text}

&&-both : (a b : Bool) → (a && b) ≡ true → (a ≡ true) × (b ≡ true)
&&-both a b e = ground (arith, e)

-- Every character of the text may stand in a label.
unfoldable pub is_label : String → Bool
is_label [] = true
is_label (c ∷ s) = is_label_char c && is_label s

-- Eight hexadecimal digits.
unfoldable pub is_hex : ℕ → String → Bool
is_hex zero [] = true
is_hex zero (c ∷ s) = false
is_hex (suc k) [] = false
is_hex (suc k) (c ∷ s) = is_hex_char c && is_hex k s

hex_close-append :
    (k : ℕ) (d rest : String) → is_hex k d ≡ true → hex_close k (d ++ ("]" ∷ rest)) ≡ true
unfolding hex_close is_hex
hex_close-append zero [] rest e = rw (nil-append ("]" ∷ rest)) refl
hex_close-append zero (c ∷ s) rest e = absurd (cc e)
hex_close-append (suc k) [] rest e = absurd (cc e)
hex_close-append (suc k) (c ∷ s) rest e =
    rw (cons-append c s ("]" ∷ rest)) (ground (arith, hex_close-append k s rest))

label_length-cons :
    (started : Bool) (c : Char) (s : String)
    → is_label_char c ≡ true
    → label_length started (c ∷ s) ≡ Option.map suc (label_length true s)
unfolding label_length
label_length-cons started c s e = rw e refl

-- What `label_length` says of the rest of a label, a colon, eight digits and a bracket.
label_length-label :
    (l d rest : String)
    → is_label l ≡ true
    → is_hex 8 d ≡ true
    → label_length true (l ++ (":" ∷ (d ++ ("]" ∷ rest)))) ≡ some (count l + 10)
unfolding is_label is_label_char label_length
label_length-label [] d rest e f =
    rw (nil-append (":" ∷ (d ++ ("]" ∷ rest))))
      (rw (label_length, hex_close-append 8 d rest f) refl)
label_length-label (c ∷ l) d rest e f =
    let (head, tail) = &&-both (is_label_char c) (is_label l) e in
    rw (cons-append c l (":" ∷ (d ++ ("]" ∷ rest)))) (
      label_length-cons true c (l ++ (":" ∷ (d ++ ("]" ∷ rest)))) head
      ∙ rw (label_length-label l d rest tail f) (ap some (omega (arith, length-cons c l))))

-- The length of a whole token.
pub token_length-token :
    (c : Char) (l d rest : String)
    → is_label (c ∷ l) ≡ true
    → is_hex 8 d ≡ true
    → token_length ("[" ∷ c ∷ (l ++ (":" ∷ (d ++ ("]" ∷ rest))))) ≡ some (count l + 12)
unfolding token_length is_label
token_length-token c l d rest e f =
    let (head, tail) = &&-both (is_label_char c) (is_label l) e in
    rw (label_length-cons false c (l ++ (":" ∷ (d ++ ("]" ∷ rest)))) head)
      (rw (label_length-label l d rest tail f) (ap some (omega arith)))

take_text-all : (s : String) (n : ℕ) → n ≡ count s → take_text n s ≡ s
unfolding take_text
take_text-all [] zero e = refl
take_text-all [] (suc n) e = refl
take_text-all (c ∷ s) zero e = absurd (omega (arith, e, length-cons c s))
take_text-all (c ∷ s) (suc n) e =
    ap (λ r. c ∷ r) (take_text-all s n (omega (arith, e, length-cons c s)))

pub count-hex : (k : ℕ) (d : String) → is_hex k d ≡ true → count d ≡ k
unfolding is_hex
count-hex zero [] e = refl
count-hex zero (c ∷ s) e = absurd (cc e)
count-hex (suc k) [] e = absurd (cc e)
count-hex (suc k) (c ∷ s) e =
    length-cons c s ∙ ap suc (count-hex k s (&&-both (is_hex_char c) (is_hex k s) e).1)

module _ (v : Vault) (allowed registered : Option (List String)) where
  reveal_from-skip :
      (s : String) (n : ℕ) → n ≡ count s → reveal_from v allowed registered n s ≡ ok ([], nil)
  unfolding reveal_from
  reveal_from-skip [] zero e = refl
  reveal_from-skip [] (suc n) e = refl
  reveal_from-skip (c ∷ s) zero e = absurd (omega (arith, e, length-cons c s))
  reveal_from-skip (c ∷ s) (suc n) e = reveal_from-skip s n (omega (arith, e, length-cons c s))

  token_at :
      (c : Char) (s : String) (n : ℕ)
      → token_length (c ∷ s) ≡ some n
      → reveal_from v allowed registered zero (c ∷ s) ≡ (
          let t = take_text n (c ∷ s) in
          replaced v allowed registered t
            (gates v allowed registered t)
            (reveal_from v allowed registered (n - 1) s))
  unfolding reveal_from
  token_at c s n e = rw (reveal_from, e) refl

  -- A text that is one token gives way to its original.
  pub reveal-one :
      (c : Char) (s : String) (n : ℕ) (k : Bytes) (m : PiiMapping) (value : String)
      → token_length (c ∷ s) ≡ some (suc n)
      → n ≡ count s
      → gates v allowed registered (c ∷ s) ≡ some (k, m)
      → v.decrypt k m.ciphertext m.nonce ≡ ok value
      → reveal v allowed registered (c ∷ s) ≡ ok (value, cons (c ∷ s) nil)
  unfolding reveal
  reveal-one c s n k m value long e gated opens =
      let whole : take_text (suc n) (c ∷ s) ≡ c ∷ s =
        take_text-all (c ∷ s) (suc n) (omega (arith, e, length-cons c s)) in
      token_at c s (suc n) long
      ∙ ap
          (λ t.
            replaced v allowed registered t (gates v allowed registered t)
              (reveal_from v allowed registered (suc n - 1) s))
          whole
      ∙ ap
          (λ g.
            replaced v allowed registered (c ∷ s) g
              (reveal_from v allowed registered (suc n - 1) s))
          gated
      ∙ ap (replaced v allowed registered (c ∷ s) (some (k, m)))
          (reveal_from-skip s (suc n - 1) (omega (arith, e)))
      ∙ rw (opens, append-nil value) refl
