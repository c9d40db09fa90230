-- ===== src/Passages.antt =====
-- src/wordsworth/passages.py: overlapping word windows over a text.
use Prim.Native.String.{String, ◌++◌, [], ◌∷◌}
use mathlib.Core.List.{List, [] as nil, ◌∷◌ as cons, ◌++◌ as append_list}
use wordsworth.Prelude.{
  ℕ, zero, suc, ◌+◌, ◌-◌, ◌*◌, ◌/◌, true, false, ltb, ◌==◌, nat_eq, string_eq, length, take, drop,
  if◌then◌else◌,
}
use wordsworth.Text.{is_space}

-- `WORDS` and `STRIDE`
abbrev pub window_words : ℕ
window_words = 200

abbrev pub window_stride : ℕ
window_stride = 150

abbrev finish : String → List String → List String
finish word rest = if word == "" then rest else cons word rest

-- `text.split()`, with `word` the part of a word that was read.
words_from : String → String → List String
unfolding is_space
words_from word [] = finish word nil
words_from word (c ∷ s) = elim (is_space c) [
  | true ↦ finish word (words_from "" s)
  | false ↦ words_from (word ++ c ∷ []) s
]

unfoldable pub split_words : String → List String
unfolding words_from
split_words s = words_from "" s

-- `" ".join(words)`
unfoldable pub join_words : List String → String
join_words nil = ""
join_words (cons w nil) = w
join_words (cons w (cons v rest)) = w ++ " " ++ join_words (cons v rest)

-- `count` windows of `words` words from `start` on, `stride` apart.
unfoldable pub windows : ℕ → ℕ → ℕ → ℕ → List String → List String
unfolding join_words
windows words stride zero start tokens = nil
windows words stride (suc count) start tokens =
    cons (join_words (take words (drop start tokens)))
      (windows words stride count (start + stride) tokens)

-- `split` on the words: `range(0, max(n - words, 0) + 1, stride)` has `(n - words) / stride + 1`
-- starts, and the tail that the stride stepped over is one window more.
unfoldable pub split_tokens : ℕ → ℕ → List String → List String
unfolding windows
split_tokens words stride nil = nil
split_tokens words stride (cons t ts) =
    let tokens = cons t ts in
    let n = length tokens in
    let rounds = (n - words) / stride in
    let out = windows words stride (suc rounds) 0 tokens in
    if ltb (rounds * stride + words) n
    then append_list out (cons (join_words (drop (n - words) tokens)) nil)
    else out

unfoldable pub split : String → List String
unfolding split_words split_tokens
split text = split_tokens window_words window_stride (split_words text)
