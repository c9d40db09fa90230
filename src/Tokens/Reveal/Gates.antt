-- ===== src/Tokens/Reveal/Gates.antt =====
-- What passes the gates of a reveal, and what a reveal that opens nothing returns.
use Prim.Native.String.{String, ◌++◌, [], ◌∷◌}
use Prim.Native.String.append
use mathlib.Core.List.{List, [] as nil, ◌∷◌ as cons}
use wordsworth.Prelude.{
  ℕ, zero, suc, ◌-◌, ◌≡◌, refl, true, Option, none, some, Outcome, ok, err, arith, ap, subst, ◌∙◌,
  sym, Option-cases, inl, inr, All, All-append,
}
use wordsworth.World.{Exc, Bytes, PiiMapping}
use wordsworth.Tokens.{token_length, take_text, label_of}
use wordsworth.Tokens.Reveal.{
  Vault, permits, gates, before, opened, replaced, reveal_from, reveal, revealed_tokens,
}

abbrev Revealed : Type 0
Revealed = Outcome Exc (String × List String)

module _ (v : Vault) (allowed_types registered : Option (List String)) where
  -- The token belongs to the document, and its type is allowed.
  abbrev pub IsPermitted : String → Type 0
  IsPermitted t = (permits registered t ≡ true) × (permits allowed_types (label_of t) ≡ true)

  gated :
      (t : String) (x : Bytes × PiiMapping)
      → gates v allowed_types registered t ≡ some x
      → IsPermitted t
  unfolding gates
  gated t x g = ground (arith, g)

  before-All :
      (s : String) (ts : List String) (r : Revealed)
      → All IsPermitted ts
      → All IsPermitted (revealed_tokens r)
      → All IsPermitted (revealed_tokens (before v allowed_types registered s ts r))
  before-All s ts (ok (rest, us)) h k = All-append IsPermitted ts us h k
  before-All s ts (err e) h k = tt

  opened-All :
      (t : String) (o : Outcome Exc String) (r : Revealed)
      → IsPermitted t
      → All IsPermitted (revealed_tokens r)
      → All IsPermitted (revealed_tokens (opened v allowed_types registered t o r))
  opened-All t (ok s) r h k = before-All s (cons t nil) r (h, tt) k
  opened-All t (err e) r h k = tt

  replaced-All :
      (t : String) (g : Option (Bytes × PiiMapping)) (r : Revealed)
      → gates v allowed_types registered t ≡ g
      → All IsPermitted (revealed_tokens r)
      → All IsPermitted (revealed_tokens (replaced v allowed_types registered t g r))
  replaced-All t none r e k = before-All t nil r tt k
  replaced-All t (some (key, m)) r e k =
      opened-All t (v.decrypt key m.ciphertext m.nonce) r (gated t (key, m) e) k

  reveal_from-All :
      (skip : ℕ) (s : String)
      → All IsPermitted (revealed_tokens (reveal_from v allowed_types registered skip s))
  unfolding reveal_from
  reveal_from-All skip [] = tt
  reveal_from-All (suc skip) (c ∷ s) = reveal_from-All skip s
  reveal_from-All zero (c ∷ s) = elim (Option-cases (token_length (c ∷ s))) [
    | inl plain ↦
        rw (plain, reveal_from)
          (before-All (c ∷ []) nil (reveal_from v allowed_types registered zero s) tt
            (reveal_from-All zero s))
    | inr (n, token) ↦
        let t = take_text n (c ∷ s) in
        rw (token, reveal_from)
          (replaced-All t (gates v allowed_types registered t)
            (reveal_from v allowed_types registered (n - 1) s) refl (reveal_from-All (n - 1) s))
  ]

  -- Every token that a reveal opens belongs to the document and is of a type that is allowed.
  pub reveal-IsPermitted :
      (text : String) → All IsPermitted (revealed_tokens (reveal v allowed_types registered text))
  unfolding reveal
  reveal-IsPermitted text = reveal_from-All zero text

  -- `s[n:]`
  drop_text : ℕ → String → String
  drop_text zero s = s
  drop_text (suc n) [] = []
  drop_text (suc n) (c ∷ s) = drop_text n s

  take_text-drop_text : (n : ℕ) (s : String) → take_text n s ++ drop_text n s ≡ s
  unfolding take_text drop_text
  take_text-drop_text zero s = append.nil s
  take_text-drop_text (suc n) [] = append.nil []
  take_text-drop_text (suc n) (c ∷ s) =
      append.cons c (take_text n s) (drop_text n s) ∙ ap (λ r. c ∷ r) (take_text-drop_text n s)

  token_length-suc : (s : String) (n : ℕ) → token_length s ≡ some n → n ≡ suc (n - 1)
  unfolding token_length
  token_length-suc [] n e = cc
  token_length-suc (c ∷ s) n e = ground (arith, e)

  reveal_from-none :
      ((t : String) → gates v allowed_types registered t ≡ none)
      → (skip : ℕ) (s : String)
      → reveal_from v allowed_types registered skip s ≡ ok (drop_text skip s, nil)
  unfolding reveal_from drop_text
  reveal_from-none shut zero [] = refl
  reveal_from-none shut (suc skip) [] = refl
  reveal_from-none shut (suc skip) (c ∷ s) = reveal_from-none shut skip s
  reveal_from-none shut zero (c ∷ s) = elim (Option-cases (token_length (c ∷ s))) [
    | inl plain ↦
        rw (plain, reveal_from, reveal_from-none shut zero s) (ap (λ r. ok (r, nil)) (kept s))
    | inr (n, token) ↦
        rw (token, reveal_from, shut (take_text n (c ∷ s)), reveal_from-none shut (n - 1) s)
          (ap (λ r. ok (r, nil)) (whole n (token_length-suc (c ∷ s) n token)))
  ]
    where
      kept : (s : String) → (c ∷ []) ++ s ≡ c ∷ s
      kept s = append.cons c [] s ∙ ap (λ r. c ∷ r) (append.nil s)

      whole : (n : ℕ) → n ≡ suc (n - 1) → take_text n (c ∷ s) ++ drop_text (n - 1) s ≡ c ∷ s
      whole n e =
          subst (λ m. take_text m (c ∷ s) ++ drop_text (n - 1) s ≡ c ∷ s) (sym e)
            (take_text-drop_text (suc (n - 1)) (c ∷ s))

  -- A reveal for which no token passes the gates returns the text as it was, and names none.
  pub reveal-none :
      (text : String)
      → ((t : String) → gates v allowed_types registered t ≡ none)
      → reveal v allowed_types registered text ≡ ok (text, nil)
  unfolding reveal drop_text
  reveal-none text shut = reveal_from-none shut zero text
