-- ===== src/Tokens/Neutral.antt =====
-- After `neutralise_foreign_tokens` no token is left in a text.
use Prim.Native.Char.{Char, char, code}
use text.Mathlib.TextLemmas.{append_assoc}
use Prim.Native.String.{String, ◌++◌, [], ◌∷◌}
use Prim.Native.String.append
use mathlib.Core.List.{[] as nil}
use wordsworth.Prelude.{
  ℕ, zero, suc, ◌-◌, ◌≡◌, ◌≢◌, refl, Bool, true, false, none, some, nat_eq, arith, ap, ◌∙◌,
  Option-cases, Bool-cases, inl, inr, ◌⊎◌,
}
use wordsworth.Tokens.{
  is_label_char, is_hex_char, hex_close, label_length, token_length, take_text, sub_from,
  sub_tokens, find_from, tokens_in, inner, defused, neutralise_foreign_tokens, drop_last,
}

-- No token begins at any place of the text.
abbrev pub HasNoToken : String → Type 0
HasNoToken [] = Unit
HasNoToken (c ∷ s) = (token_length (c ∷ s) ≡ none) × HasNoToken s

pub tokens_in-none : (s : String) → HasNoToken s → tokens_in s ≡ nil
unfolding tokens_in
tokens_in-none [] h = refl
tokens_in-none (c ∷ s) h = rw (h.0, tokens_in, find_from) (tokens_in-none s h.1)

sub_plain :
    (f : String → String) (c : Char) (s : String)
    → token_length (c ∷ s) ≡ none
    → sub_from f zero (c ∷ s) ≡ c ∷ sub_from f zero s
unfolding sub_from
sub_plain f c s e = rw (e, sub_from)

-- What a text without tokens stays under a replacement.
pub sub_tokens-none : (f : String → String) (s : String) → HasNoToken s → sub_tokens f s ≡ s
unfolding sub_tokens
sub_tokens-none f [] h = refl
sub_tokens-none f (c ∷ s) h = sub_plain f c s h.0 ∙ ap (λ t. c ∷ t) (sub_tokens-none f s h.1)

abbrev defuse : ℕ → String → String
defuse skip s = sub_from defused skip s

abbrev opening : Char
opening = char 40 tt

-- The text of a token, defused, with what follows it.
defused-append : (t r : String) → defused t ++ r ≡ opening ∷ (inner t ++ (")" ++ r))
unfolding defused
defused-append t r =
    append_assoc "(" (inner t ++ ")") r
    ∙ append.cons opening [] ((inner t ++ ")") ++ r)
    ∙ ap (λ u. opening ∷ u) (append.nil _ ∙ append_assoc (inner t) ")" r)

sub_token :
    (c : Char) (s : String) (n : ℕ)
    → token_length (c ∷ s) ≡ some n
    → defuse zero (c ∷ s) ≡ opening ∷ (inner (take_text n (c ∷ s)) ++ (")" ++ defuse (n - 1) s))
unfolding sub_from
sub_token c s n e = rw (e, sub_from) (defused-append (take_text n (c ∷ s)) (defuse (n - 1) s))

hex_opening : (k : ℕ) (r : String) → hex_close k (opening ∷ r) ≡ false
unfolding hex_close is_hex_char
hex_opening zero r = refl
hex_opening (suc k) r = refl

hex_close-defuse : (k : ℕ) (s : String) → hex_close k (defuse zero s) ≡ true → hex_close k s ≡ true
unfolding hex_close
hex_close-defuse k [] h = unfold sub_from in h
hex_close-defuse k (c ∷ s) h = elim (Option-cases (token_length (c ∷ s))) [
  | inr (n, token) ↦ absurd (cc (sub_token c s n token, hex_opening k _, h))
  | inl plain ↦ same_head k (rw (sub_plain defused c s plain) at h) (λ j. hex_close-defuse j s)
]
  where
    same_head :
        (k : ℕ)
        → hex_close k (c ∷ defuse zero s) ≡ true
        → ((j : ℕ) → hex_close j (defuse zero s) ≡ true → hex_close j s ≡ true)
        → hex_close k (c ∷ s) ≡ true
    same_head zero h ih = h
    same_head (suc j) h ih = ground (arith, ih j)

label_opening : (b : Bool) (r : String) → label_length b (opening ∷ r) ≡ none
unfolding label_length is_label_char
label_opening b r = refl

label_length-defuse :
    (b : Bool) (s : String) (n : ℕ)
    → label_length b (defuse zero s) ≡ some n
    → label_length b s ≡ some n
unfolding label_length
label_length-defuse b [] n h = unfold sub_from in h
label_length-defuse b (c ∷ s) n h = elim (Option-cases (token_length (c ∷ s))) [
  | inr (k, token) ↦ absurd (cc (sub_token c s k token, label_opening b _, h))
  | inl plain ↦
      same_head (rw (sub_plain defused c s plain) at h) (label_length-defuse true s)
        (hex_close-defuse 8 s) (Option-cases (label_length true (defuse zero s)))
]
  where
    same_head :
        label_length b (c ∷ defuse zero s) ≡ some n
        → ((m : ℕ) → label_length true (defuse zero s) ≡ some m → label_length true s ≡ some m)
        → (hex_close 8 (defuse zero s) ≡ true → hex_close 8 s ≡ true)
        → (label_length true (defuse zero s) ≡ none)
          ⊎ ((m : ℕ) × (label_length true (defuse zero s) ≡ some m))
        → label_length b (c ∷ s) ≡ some n
    same_head h ih hex (inl gone) = ground arith
    same_head h ih hex (inr (m, found)) = ground (arith, ih m)

-- A character that was no token's beginning is none before the defused text either.
token_length-defuse :
    (c : Char) (s : String) → token_length (c ∷ s) ≡ none → token_length (c ∷ defuse zero s) ≡ none
unfolding token_length
token_length-defuse c s plain = elim (Option-cases (label_length false (defuse zero s))) [
  | inl gone ↦ rw gone (ground arith)
  | inr (m, found) ↦ ground (arith, label_length-defuse false s m found)
]

-- No character opens a token.
abbrev NoBracket : String → Type 0
NoBracket [] = Unit
NoBracket (c ∷ s) = (code c ≢ 91) × NoBracket s

NoBracket-drop_last :
    (c : Char) (s : String) → code c ≢ 91 → NoBracket (drop_last s) → NoBracket (drop_last (c ∷ s))
NoBracket-drop_last c [] n h = tt
NoBracket-drop_last c (d ∷ s) n h = (n, h)

hex_NoBracket :
    (k : ℕ) (s : String) → hex_close k s ≡ true → NoBracket (drop_last (take_text (suc k) s))
unfolding hex_close take_text is_hex_char
hex_NoBracket k [] h = cc
hex_NoBracket zero (c ∷ s) h = tt
hex_NoBracket (suc k) (c ∷ s) h =
    NoBracket-drop_last c (take_text (suc k) s) (ground arith) (hex_NoBracket k s (ground arith))

not_bracket : (c : Char) → is_label_char c ≡ true → code c ≢ 91
unfolding is_label_char
not_bracket c h = ground arith

label_NoBracket :
    (b : Bool) (s : String) (m : ℕ)
    → label_length b s ≡ some m
    → NoBracket (drop_last (take_text m s))
unfolding label_length take_text
label_NoBracket b [] m h = cc
label_NoBracket b (c ∷ s) m h = elim (Bool-cases (is_label_char c)) [
  | inl label ↦ elim (Option-cases (label_length true s)) [
    | inl gone ↦ absurd (ground arith)
    | inr (k, found) ↦
        let e : m ≡ suc k = ground arith in
        rw e (
          NoBracket-drop_last c (take_text k s) (not_bracket c label)
            (label_NoBracket true s k found))
  ]
  | inr other ↦
      let e : m ≡ 10 = ground arith in
      rw e (NoBracket-drop_last c (take_text 9 s) (ground arith) (hex_NoBracket 8 s (ground arith)))
]

token_NoBracket :
    (c : Char) (s : String) (n : ℕ)
    → token_length (c ∷ s) ≡ some n
    → NoBracket (inner (take_text n (c ∷ s)))
unfolding token_length inner take_text
token_NoBracket c s n h = elim (Option-cases (label_length false s)) [
  | inl gone ↦ absurd (ground arith)
  | inr (m, found) ↦ let e : n ≡ suc m = ground arith in rw e (label_NoBracket false s m found)
]

HasNoToken-cons : (c : Char) (s : String) → code c ≢ 91 → HasNoToken s → HasNoToken (c ∷ s)
unfolding token_length
HasNoToken-cons c s n h = (ground arith, h)

HasNoToken-append : (x r : String) → NoBracket x → HasNoToken r → HasNoToken (x ++ r)
HasNoToken-append [] r n h = rw append.nil h
HasNoToken-append (c ∷ x) r n h =
    rw append.cons (HasNoToken-cons c (x ++ r) n.0 (HasNoToken-append x r n.1 h))

defuse-nil : (skip : ℕ) → defuse skip [] ≡ []
unfolding sub_from
defuse-nil skip = refl

defuse-suc : (skip : ℕ) (c : Char) (s : String) → defuse (suc skip) (c ∷ s) ≡ defuse skip s
unfolding sub_from
defuse-suc skip c s = refl

HasNoToken-defuse : (skip : ℕ) (s : String) → HasNoToken (defuse skip s)
HasNoToken-defuse skip [] = rw defuse-nil tt
HasNoToken-defuse (suc skip) (c ∷ s) = rw defuse-suc (HasNoToken-defuse skip s)
HasNoToken-defuse zero (c ∷ s) = elim (Option-cases (token_length (c ∷ s))) [
  | inl plain ↦
      rw (sub_plain defused c s plain) (token_length-defuse c s plain, HasNoToken-defuse zero s)
  | inr (n, token) ↦ rw (sub_token c s n token) (
      HasNoToken-cons opening _ (omega arith) (
        HasNoToken-append _ _ (token_NoBracket c s n token)
          (HasNoToken-append ")" _ (omega arith) (HasNoToken-defuse (n - 1) s))))
]

-- `tokens_in` finds no token in what `neutralise_foreign_tokens` returns.
pub neutralise-tokens_in : (s : String) → tokens_in (neutralise_foreign_tokens s).0 ≡ nil
unfolding neutralise_foreign_tokens
neutralise-tokens_in s = tokens_in-none _ (HasNoToken-defuse zero s)
