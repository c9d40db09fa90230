-- ===== src/Deletion/Tables.antt =====
-- What each removal leaves in its table.
use wordsworth.Prelude.{
  ℕ, String, ◌≡◌, ◌≢◌, refl, true, none, List, [], ◌∷◌, ◌==◌, nat_eq, string_eq, option_eq, arith,
  if◌then◌else◌, eq_iff,
}
use wordsworth.World.{PiiMapping}
use wordsworth.Tokens.Registry.{is_registered}
use wordsworth.Objects
use wordsworth.Pipeline.{anonymized_text}
use wordsworth.Deletion.{without_text, without_token, is_shared, mapping_of, without_mapping}

pub text-without_text :
    (d e : ℕ) (ts : List (ℕ × String))
    → anonymized_text e (without_text d ts) ≡ (if d == e then none else anonymized_text e ts)
unfolding anonymized_text without_text
text-without_text d e [] = ground arith
text-without_text d e ((i, t) ∷ ts) = ground (arith, text-without_text d e ts)

pub mapping_of-without_mapping :
    (p q : String) (ms : List PiiMapping)
    → mapping_of q (without_mapping p ms) ≡ (if p == q then none else mapping_of q ms)
unfolding mapping_of without_mapping
mapping_of-without_mapping p q [] = ground arith
mapping_of-without_mapping p q (m ∷ ms) = ground (
  arith,
  mapping_of-without_mapping p q ms,
  eq_iff m.pseudonym p,
  eq_iff m.pseudonym q,
  eq_iff p q,
)

-- A document that has the pseudonym shares it with every other.
pub is_registered-is_shared :
    (d e : ℕ) (p : String) (rows : List (ℕ × String))
    → e ≢ d
    → is_registered e p rows ≡ true
    → is_shared d p rows ≡ true
unfolding is_registered is_shared
is_registered-is_shared d e p [] n r = cc
is_registered-is_shared d e p ((i, q) ∷ rows) n r =
    ground (arith, is_registered-is_shared d e p rows n)

pub is_registered-without_token :
    (d e : ℕ) (p q : String) (rows : List (ℕ × String))
    → e ≢ d
    → is_registered e p (without_token d q rows) ≡ is_registered e p rows
unfolding is_registered without_token
is_registered-without_token d e p q [] n = refl
is_registered-without_token d e p q ((i, s) ∷ rows) n =
    ground (arith, is_registered-without_token d e p q rows n)

pub get_raw-delete :
    (j k : String) (os : List (String × List ℕ))
    → Objects.get_raw k (Objects.delete j os) ≡ (if j == k then none else Objects.get_raw k os)
unfolding Objects.get_raw Objects.delete
get_raw-delete j k [] = ground arith
get_raw-delete j k ((i, b) ∷ os) =
    ground (arith, get_raw-delete j k os, eq_iff i j, eq_iff i k, eq_iff j k)
