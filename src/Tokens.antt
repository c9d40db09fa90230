-- ===== src/Tokens.antt =====
-- The pseudonym tokens, `\[[A-Z0-9_]+:[0-9a-f]{8}\]`, of src/wordsworth/pseudonymizer.py and
-- src/wordsworth/pseudonym_registry.py: finding them in a text and replacing them, as `re` does from
-- left to right without overlap. No character of the class before the colon is a colon, so the
-- greedy match needs no second try.
pub mod Neutral
pub mod Registry
pub mod Reveal
use Prim.Native.Char.{Char, code}
use Prim.Native.String.{String, ◌++◌, [], ◌∷◌}
use mathlib.Core.List.{List, [] as nil, ◌∷◌ as cons}
use mathlib.Core.Option
use wordsworth.Prelude.{
  ℕ, zero, suc, ◌+◌, ◌-◌, Bool, true, false, ◌&&◌, ◌||◌, Option, none, some, leb, ◌==◌, nat_eq,
  if◌then◌else◌, length,
}
use wordsworth.Text.{upper}

-- `[A-Z0-9_]`
unfoldable pub is_label_char : Char → Bool
is_label_char c = let n = code c in (leb 65 n && leb n 90) || (leb 48 n && leb n 57) || n == 95

-- `[0-9a-f]`
unfoldable pub is_hex_char : Char → Bool
is_hex_char c = let n = code c in (leb 48 n && leb n 57) || (leb 97 n && leb n 102)

-- Whether `k` hexadecimal digits and a closing bracket begin the text.
unfoldable pub hex_close : ℕ → String → Bool
hex_close k [] = false
hex_close zero (c ∷ s) = code c == 93
hex_close (suc k) (c ∷ s) = is_hex_char c && hex_close k s

-- How many characters the rest of a token takes after its bracket; `started` if the label has a
-- character already.
unfoldable pub label_length : Bool → String → Option ℕ
label_length started [] = none
label_length started (c ∷ s) =
    let rest = label_length true s in
    if is_label_char c
    then Option.map suc rest
    else (if code c == 58 && started && hex_close 8 s then some 10 else none)

-- The length of the token that begins the text.
unfoldable pub token_length : String → Option ℕ
unfolding label_length
token_length [] = none
token_length (c ∷ s) = if code c == 91 then Option.map suc (label_length false s) else none

-- `s[:n]`
unfoldable pub take_text : ℕ → String → String
take_text zero s = []
take_text (suc n) [] = []
take_text (suc n) (c ∷ s) = c ∷ take_text n s

-- `_PSEUDONYM_RE.sub(f, text)`, after `skip` characters that belong to a token.
unfoldable pub sub_from : (String → String) → ℕ → String → String
unfolding take_text
sub_from f skip [] = []
sub_from f (suc skip) (c ∷ s) = sub_from f skip s
sub_from f zero (c ∷ s) = elim (token_length (c ∷ s)) [
  | none ↦ c ∷ sub_from f zero s
  | some n ↦ f (take_text n (c ∷ s)) ++ sub_from f (n - 1) s
]

unfoldable pub sub_tokens : (String → String) → String → String
unfolding sub_from
sub_tokens f s = sub_from f zero s

-- `_TOKEN.findall(text)`
unfoldable pub find_from : ℕ → String → List String
unfolding take_text
find_from skip [] = nil
find_from (suc skip) (c ∷ s) = find_from skip s
find_from zero (c ∷ s) = elim (token_length (c ∷ s)) [
  | none ↦ find_from zero s
  | some n ↦ cons (take_text n (c ∷ s)) (find_from (n - 1) s)
]

-- `tokens_in`, as a list in the order of the text
unfoldable pub tokens_in : String → List String
unfolding find_from
tokens_in s = find_from zero s

abbrev pub drop_last : String → String
drop_last [] = []
drop_last (d ∷ []) = []
drop_last (d ∷ e ∷ r) = d ∷ drop_last (e ∷ r)

-- `m.group(0)[1:-1]`
unfoldable pub inner : String → String
inner [] = []
inner (c ∷ s) = drop_last s

-- `"(" + m.group(0)[1:-1] + ")"`
unfoldable pub defused : String → String
unfolding inner
defused t = "(" ++ inner t ++ ")"

-- `neutralise_foreign_tokens`: the text, and how many tokens it held
unfoldable pub neutralise_foreign_tokens : String → String × ℕ
unfolding sub_tokens defused tokens_in
neutralise_foreign_tokens s = (sub_tokens defused s, length (tokens_in s))

abbrev pub before_colon : String → String
before_colon [] = []
before_colon (d ∷ r) = let rest = before_colon r in if code d == 58 then [] else d ∷ rest

-- `label_of`
unfoldable pub label_of : String → String
unfolding upper
label_of [] = []
label_of (c ∷ s) = upper (before_colon s)

-- `without_tokens`
unfoldable pub without_tokens : String → String → String
unfolding sub_tokens
without_tokens text replacement = sub_tokens (λ _. replacement) text
