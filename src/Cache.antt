-- ===== src/Cache.antt =====
-- `LruCache` and `cached_query` of src/wordsworth/cache.py. The store is the list of its entries,
-- the oldest first.
pub mod Bounded
pub mod Embedder
pub mod Truthful
use Prim.Native.String.{String, ◌++◌}
use wordsworth.Prelude.{
  ℕ, ◌-◌, Bool, true, false, ◌≡◌, Option, none, some, List, [], ◌∷◌, ◌==◌, string_eq, length, drop,
  if◌then◌else◌,
}
use mathlib.Core.List.{◌++◌ as append_list}

module _ {V : Type 0} where
  unfoldable pub value_of : String → List (String × V) → Option V
  value_of k [] = none
  value_of k ((j, v) ∷ es) = if j == k then some v else value_of k es

  unfoldable pub without_key : String → List (String × V) → List (String × V)
  without_key k [] = []
  without_key k ((j, v) ∷ es) = if j == k then without_key k es else (j, v) ∷ without_key k es

  -- `move_to_end` of an entry with its value
  abbrev pub to_end : String → V → List (String × V) → List (String × V)
  to_end k v es = append_list (without_key k es) ((k, v) ∷ [])

  -- `get`: the value, and the store after it
  unfoldable pub get : String → List (String × V) → Option V × List (String × V)
  unfolding value_of without_key
  get k es = elim (value_of k es) [ none ↦ (none, es) | some v ↦ (some v, to_end k v es) ]

  -- `while len(self._store) > self.maxsize: self._store.popitem(last=False)`
  unfoldable pub evict : ℕ → List (String × V) → List (String × V)
  evict maxsize es = drop (length es - maxsize) es

  -- `set`
  unfoldable pub set : ℕ → String → V → List (String × V) → List (String × V)
  unfolding evict without_key
  set maxsize k v es = evict maxsize (to_end k v es)

  -- `cached_query` under a key: the result, and the store after it
  unfoldable pub cached_query : ℕ → String → V → Bool → List (String × V) → V × List (String × V)
  unfolding get set
  cached_query maxsize key result bypass es =
      if bypass then (result, set maxsize key result es) else (elim (value_of key es) [
        | some v ↦ (v, to_end key v es)
        | none ↦ (result, set maxsize key result es)
      ])
