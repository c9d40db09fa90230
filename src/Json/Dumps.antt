-- ===== src/Json/Dumps.antt =====
-- `json.dumps(value, sort_keys=True, separators=…, ensure_ascii=False)`.
use Prim.Native.Char.{Char, code}
use Prim.Native.Nat.{Ordering}
use Prim.Native.String.{◌++◌, compare, [], ◌∷◌}
use wordsworth.Prelude.{
  ℕ, zero, suc, ◌/◌, ◌%◌, String, Bool, true, false, ltb, ◌==◌, nat_eq, if◌then◌else◌,
}
use wordsworth.Json.{
  Json, null, boolean, num, float, str, arr, obj, Items, nil, cons, Fields, end, field,
}

-- One digit, up to base sixteen.
abbrev digit : ℕ → String
digit n =
    if n == 0
    then "0"
    else if n == 1
    then "1"
    else if n == 2
    then "2"
    else if n == 3
    then "3"
    else if n == 4
    then "4"
    else if n == 5
    then "5"
    else if n == 6
    then "6"
    else if n == 7
    then "7"
    else if n == 8
    then "8"
    else if n == 9
    then "9"
    else if n == 10
    then "a"
    else if n == 11
    then "b"
    else if n == 12
    then "c"
    else if n == 13
    then "d"
    else if n == 14
    then "e"
    else "f"

-- `str(n)`; the digits of `n` are at most `n + 1`, so the fuel is enough.
decimal_fuel : ℕ → ℕ → String
decimal_fuel zero n = ""
decimal_fuel (suc fuel) n =
    let high = decimal_fuel fuel (n / 10) in if ltb n 10 then digit n else high ++ digit (n % 10)

unfoldable pub decimal : ℕ → String
unfolding decimal_fuel
decimal n = decimal_fuel (suc n) n

-- The escapes of `json.encoder.ESCAPE_DCT`.
unfoldable pub escape_char : Char → String
escape_char c =
    let n = code c in
    if n == 34
    then "\\\""
    else if n == 92
    then "\\\\"
    else if n == 10
    then "\\n"
    else if n == 13
    then "\\r"
    else if n == 9
    then "\\t"
    else if n == 8
    then "\\b"
    else if n == 12
    then "\\f"
    else if ltb n 32
    then "\\u00" ++ digit (n / 16) ++ digit (n % 16)
    else c ∷ []

unfoldable pub escape : String → String
unfolding escape_char
escape [] = ""
escape (c ∷ s) = escape_char c ++ escape s

unfoldable pub quoted : String → String
unfolding escape
quoted s = "\"" ++ escape s ++ "\""

-- `sort_keys=True`
abbrev key_le : String → String → Bool
key_le a b = elim (compare a b) [ Ordering.gt ↦ false | _ ↦ true ]

insert_sorted : String → Json → Fields → Fields
insert_sorted k v end = field k v end
insert_sorted k v (field j w rest) =
    if key_le k j then field k v (field j w rest) else field j w (insert_sorted k v rest)

unfoldable mutual
  unfolding insert_sorted

  pub sorted : Json → Json
  sorted null = null
  sorted (boolean b) = boolean b
  sorted (num n) = num n
  sorted (float r) = float r
  sorted (str s) = str s
  sorted (arr xs) = arr (sorted_items xs)
  sorted (obj fs) = obj (sorted_fields fs)

  pub sorted_items : Items → Items
  sorted_items nil = nil
  sorted_items (cons x xs) = cons (sorted x) (sorted_items xs)

  pub sorted_fields : Fields → Fields
  sorted_fields end = end
  sorted_fields (field k v rest) = insert_sorted k (sorted v) (sorted_fields rest)

-- The separators between items and after a key.
pub record Separators : Type 0 where
  pub item : String
  pub key : String

-- `separators=(",", ":")`
abbrev pub compact : Separators
compact = record { item = ","; key = ":" }

-- The default of `json.dumps`.
abbrev pub spaced : Separators
spaced = record { item = ", "; key = ": " }

module _ (sep : Separators) where
  unfoldable mutual
    unfolding quoted decimal

    pub print : Json → String
    print null = "null"
    print (boolean true) = "true"
    print (boolean false) = "false"
    print (num n) = decimal n
    print (float r) = r
    print (str s) = quoted s
    print (arr nil) = "[]"
    print (arr (cons x xs)) = "[" ++ print x ++ print_items xs
    print (obj end) = "{}"
    print (obj (field k v rest)) = "{" ++ quoted k ++ sep.key ++ print v ++ print_fields rest

    -- What follows the first item.
    pub print_items : Items → String
    print_items nil = "]"
    print_items (cons x xs) = sep.item ++ print x ++ print_items xs

    -- What follows the first entry.
    pub print_fields : Fields → String
    print_fields end = "}"
    print_fields (field k v rest) = sep.item ++ quoted k ++ sep.key ++ print v ++ print_fields rest

  unfoldable pub dumps : Json → String
  unfolding sorted print
  dumps j = print (sorted j)
