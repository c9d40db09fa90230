-- ===== src/Examples/Toy.antt =====
-- A toy cipher that has the laws of the parameters: it writes a text as the numbers of its
-- characters.
use Prim.Native.Char.{Char, char, code, IsLt, IsScalar}
use Prim.Native.String.{[] as empty, ◌∷◌ as cons_text}
use Prim.Native.Nat.{Ordering, compare}
use text.Mathlib.TextEquality.{IsScalar-prop}
use wordsworth.Prelude.{
  ℕ, String, ◌≡◌, refl, Option, none, some, [], ◌∷◌, Outcome, ok, err, ap, ◌∙◌,
}
use wordsworth.World.{Exc, Bytes, value_error}
use wordsworth.Keys.{Crypto, IsCipher}

abbrev lt? : (o : Ordering) → Option (IsLt o)
lt? Ordering.lt = some tt
lt? _ = none

abbrev Both : Ordering → Ordering → Type 0
Both Ordering.lt o = IsLt o
Both Ordering.eq _ = ⊥
Both Ordering.gt _ = ⊥

abbrev Scalar : Ordering → Ordering → Ordering → Type 0
Scalar Ordering.lt _ _ = Unit
Scalar Ordering.eq o p = Both o p
Scalar Ordering.gt o p = Both o p

abbrev both? : (o p : Ordering) → Option (Both o p)
both? Ordering.lt o = lt? o
both? _ _ = none

abbrev scalar? : (o p q : Ordering) → Option (Scalar o p q)
scalar? Ordering.lt _ _ = some tt
scalar? Ordering.eq o p = both? o p
scalar? Ordering.gt o p = both? o p

lt-found : (o : Ordering) → IsLt o → (p : IsLt o) × (lt? o ≡ some p)
lt-found Ordering.lt p = (tt, refl)
lt-found Ordering.eq p = elim p [ ]
lt-found Ordering.gt p = elim p [ ]

scalar-found : (o p q : Ordering) → Scalar o p q → (s : Scalar o p q) × (scalar? o p q ≡ some s)
scalar-found Ordering.lt p q s = (tt, refl)
scalar-found Ordering.eq Ordering.lt q s = lt-found q s
scalar-found Ordering.gt Ordering.lt q s = lt-found q s
scalar-found Ordering.eq Ordering.eq q s = elim s [ ]
scalar-found Ordering.eq Ordering.gt q s = elim s [ ]
scalar-found Ordering.gt Ordering.eq q s = elim s [ ]
scalar-found Ordering.gt Ordering.gt q s = elim s [ ]

abbrev with_scalar : (n : ℕ) → Option (IsScalar n) → Option Char
with_scalar n none = none
with_scalar n (some s) = some (char n s)

abbrev decode_char : ℕ → Option Char
decode_char n = with_scalar n (scalar? (compare n 55296) (compare 57343 n) (compare n 1114112))

decode_char-code : (c : Char) → decode_char (code c) ≡ some c
decode_char-code (char n p) =
    let (s, found) = scalar-found (compare n 55296) (compare 57343 n) (compare n 1114112) p in
    ap (with_scalar n) found ∙ ap (λ q. some (char n q)) (IsScalar-prop n s p)

abbrev encode : String → Bytes
encode empty = []
encode (cons_text c s) = code c ∷ encode s

abbrev and_then : Option Char → Outcome Exc String → Outcome Exc String
and_then (some c) (ok s) = ok (cons_text c s)
and_then _ _ = err value_error

abbrev decode : Bytes → Outcome Exc String
decode [] = ok ""
decode (n ∷ ns) = and_then (decode_char n) (decode ns)

decode-encode : (s : String) → decode (encode s) ≡ ok s
decode-encode empty = refl
decode-encode (cons_text c s) = rw (decode_char-code c, decode-encode s) refl

abbrev pub toy : Crypto
toy = record {
  mint = λ n. record { id = "fresh"; material = n ∷ [] };
  nonce = λ n. n ∷ [];
  seal = λ k n s. encode s;
  unseal = λ k n b. decode b;
}

pub toy-IsCipher : IsCipher toy
toy-IsCipher = record { opens = λ k n s. decode-encode s }
