-- ===== src/Tokens/Reveal.antt =====
-- `_reveal` of src/wordsworth/pseudonymizer.py: a token gives way to its original only through three
-- gates. The mapping store, the key provider and the cipher are parameters.
pub mod Gates
use Prim.Native.String.{String, ◌++◌, [], ◌∷◌}
use mathlib.Core.List.{List, [] as nil, ◌∷◌ as cons}
use wordsworth.Prelude.{
  ℕ, zero, suc, ◌-◌, ◌≡◌, refl, Bool, true, false, not, ◌&&◌, Option, none, some, ◌==◌, string_eq,
  contains, Outcome, ok, err, arith, ap, ◌∙◌, sym, Option-cases, Outcome-cases, Bool-cases, inl,
  inr, All, if◌then◌else◌,
}
use wordsworth.World.{Bytes, Exc, PiiMapping}
use wordsworth.Tokens.{token_length, take_text, label_of}

-- What the code takes from the caller.
pub record Vault : Type 0 where
  pub get_mapping : String → Option PiiMapping
  -- the key's material; `none` where the provider raises `KeyError`
  pub get_key : String → Option Bytes
  pub decrypt : Bytes → Bytes → Bytes → Outcome Exc String

-- The set contains the text, or there is no set.
abbrev pub permits : Option (List String) → String → Bool
permits none t = true
permits (some ts) t = contains ts t

module _ (v : Vault) (allowed_types registered : Option (List String)) where
  -- The mapping and the key of a token that passes the gates.
  unfoldable pub gates : String → Option (Bytes × PiiMapping)
  unfolding label_of
  gates t =
      if not (permits registered t)
      then none
      else if not (permits allowed_types (label_of t))
      then none
      else elim (v.get_mapping t) [
        | none ↦ none
        | some m ↦ elim (v.get_key m.key_id) [ none ↦ none | some key ↦ some (key, m) ]
      ]

  -- What comes before the rest, unless the rest raises.
  abbrev pub before :
      String → List String → Outcome Exc (String × List String) → Outcome Exc (String × List String)
  before s ts (ok (rest, us)) = ok (s ++ rest, mathlib.Core.List.◌++◌ ts us)
  before s ts (err e) = err e

  -- A token's original in its place, noted as revealed.
  abbrev pub opened :
      String
      → Outcome Exc String
      → Outcome Exc (String × List String)
      → Outcome Exc (String × List String)
  opened t (ok original) rest = before original (cons t nil) rest
  opened t (err e) rest = err e

  abbrev pub replaced :
      String
      → Option (Bytes × PiiMapping)
      → Outcome Exc (String × List String)
      → Outcome Exc (String × List String)
  replaced t none rest = before t nil rest
  replaced t (some (key, m)) rest = opened t (v.decrypt key m.ciphertext m.nonce) rest

  unfoldable pub reveal_from : ℕ → String → Outcome Exc (String × List String)
  unfolding gates take_text
  reveal_from skip [] = ok ([], nil)
  reveal_from (suc skip) (c ∷ s) = reveal_from skip s
  reveal_from zero (c ∷ s) = elim (token_length (c ∷ s)) [
    | none ↦ before (c ∷ []) nil (reveal_from zero s)
    | some n ↦ let t = take_text n (c ∷ s) in replaced t (gates t) (reveal_from (n - 1) s)
  ]

  -- `_reveal`: the restored text and the revealed tokens
  unfoldable pub reveal : String → Outcome Exc (String × List String)
  unfolding reveal_from
  reveal text = reveal_from zero text

abbrev pub revealed_tokens : Outcome Exc (String × List String) → List String
revealed_tokens (ok (text, ts)) = ts
revealed_tokens (err e) = nil
