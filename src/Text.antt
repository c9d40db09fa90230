-- ===== src/Text.antt =====
-- Python's text methods as the program uses them: `strip`, `lower`, `upper`, `split` and `in`. Case
-- is changed for the Latin letters A to Z alone: the texts that the program compares this way are
-- labels in that alphabet.
use Prim.Native.Char.{Char, code}
use Prim.Native.String.{String, char_at, ◌++◌, [], ◌∷◌}
use wordsworth.Prelude.{
  ◌-◌, Bool, true, false, ◌&&◌, ◌||◌, leb, ◌==◌, nat_eq, string_eq, if◌then◌else◌,
}
use mathlib.Core.List.{List, [] as nil, ◌∷◌ as cons}

-- `c.isspace()`
unfoldable pub is_space : Char → Bool
is_space c =
    let n = code c in
    (leb 9 n && leb n 13)
    || (leb 28 n && leb n 32)
    || n == 0x85
    || n == 0xa0
    || n == 0x1680
    || (leb 0x2000 n && leb n 0x200a)
    || n == 0x2028
    || n == 0x2029
    || n == 0x202f
    || n == 0x205f
    || n == 0x3000

unfoldable pub lstrip : String → String
unfolding is_space
lstrip [] = []
lstrip (c ∷ s) = if is_space c then lstrip s else c ∷ s

unfoldable pub rstrip : String → String
unfolding is_space
rstrip [] = []
rstrip (c ∷ s) = let rest = rstrip s in if is_space c && rest == "" then [] else c ∷ rest

unfoldable pub strip : String → String
unfolding lstrip rstrip
strip s = rstrip (lstrip s)

lower_char : Char → Char
lower_char c =
    if leb 65 (code c) && leb (code c) 90
    then char_at "abcdefghijklmnopqrstuvwxyz" (code c - 65)
    else c

upper_char : Char → Char
upper_char c =
    if leb 97 (code c) && leb (code c) 122
    then char_at "ABCDEFGHIJKLMNOPQRSTUVWXYZ" (code c - 97)
    else c

unfoldable pub lower : String → String
unfolding lower_char
lower [] = []
lower (c ∷ s) = lower_char c ∷ lower s

unfoldable pub upper : String → String
unfolding upper_char
upper [] = []
upper (c ∷ s) = upper_char c ∷ upper s

-- `s.split(",")`: the parts, of which the first is begun with `part`.
split_from : String → String → List String
split_from part [] = cons part nil
split_from part (c ∷ s) = elim (code c == 44) [
  | true ↦ cons part (split_from "" s)
  | false ↦ split_from (part ++ c ∷ []) s
]

unfoldable pub split_commas : String → List String
unfolding split_from
split_commas s = split_from "" s

-- `not (s or "").strip()`
unfoldable pub is_blank : String → Bool
unfolding strip
is_blank s = strip s == ""
