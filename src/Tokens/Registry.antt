-- ===== src/Tokens/Registry.antt =====
-- src/wordsworth/pseudonym_registry.py: which tokens belong to which document. The registry is the
-- list of its rows; their source and time are not modelled.
use wordsworth.Prelude.{
  ℕ, String, Bool, false, ◌&&◌, ◌||◌, List, [], ◌∷◌, ◌++◌, ◌==◌, nat_eq, string_eq, keep, map,
  if◌then◌else◌,
}
use wordsworth.Tokens.{tokens_in}

unfoldable pub is_registered : ℕ → String → List (ℕ × String) → Bool
is_registered d t [] = false
is_registered d t ((e, u) ∷ rows) = (e == d && u == t) || is_registered d t rows

-- A row for each token that has none.
unfoldable pub add_tokens : ℕ → List String → List (ℕ × String) → List (ℕ × String)
unfolding is_registered
add_tokens d [] rows = rows
add_tokens d (t ∷ ts) rows =
    add_tokens d ts (if is_registered d t rows then rows else rows ++ (d, t) ∷ [])

-- `register`
unfoldable pub register : ℕ → String → List (ℕ × String) → List (ℕ × String)
unfolding tokens_in add_tokens
register d text rows = add_tokens d (tokens_in text) rows

-- `registered`
unfoldable pub registered_tokens : ℕ → List (ℕ × String) → List String
registered_tokens d rows = map (λ r. r.1) (keep (λ (r : ℕ × String). r.0 == d) rows)
