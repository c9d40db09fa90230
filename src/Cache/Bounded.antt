-- ===== src/Cache/Bounded.antt =====
-- The cache holds at most `maxsize` entries.
use Prim.Native.String.{String}
use wordsworth.Prelude.{ℕ, zero, suc, ◌-◌, ◌≤◌, ◌≡◌, List, [], ◌∷◌, string_eq, length, drop, arith}
use wordsworth.Cache.{to_end, set}

length-drop {ℓ} : {A : Type ℓ} (n : ℕ) (xs : List A) → length (drop n xs) ≡ length xs - n
length-drop zero xs = omega arith
length-drop (suc n) [] = omega arith
length-drop (suc n) (x ∷ xs) = omega (arith, length-drop n xs)

module _ {V : Type 0} where
  -- After a `set` the cache holds at most `maxsize` entries.
  pub length-set :
      (maxsize : ℕ) (k : String) (v : V) (es : List (String × V))
      → length (set maxsize k v es) ≤ maxsize
  unfolding set
  length-set maxsize k v es =
      let xs = to_end k v es in omega (arith, length-drop (length xs - maxsize) xs)
