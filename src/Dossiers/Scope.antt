-- ===== src/Dossiers/Scope.antt =====
-- `resolve` of src/wordsworth/dossiers.py: the scope that a search is asked to state.
use wordsworth.Prelude.{
  ℕ, String, Bool, false, not, Option, none, some, List, [], ◌∷◌, ◌||◌, ◌==◌, string_eq, ok, err,
  keep, contains, map, length, ltb, if◌then◌else◌, Outcome,
}
use wordsworth.Text.{strip, lower, split_commas, is_blank}
use wordsworth.World.{World, Exc, Dossier, dossier_error}
use wordsworth.Dossiers.{all_scope}

-- `[n.strip() for n in str(scope).split(",") if n.strip()]`
unfoldable pub scope_names : String → List String
unfolding strip split_commas
scope_names scope = keep (λ n. not (n == "")) (map strip (split_commas scope))

abbrev pub any_all : List String → Bool
any_all [] = false
any_all (n ∷ ns) = lower n == all_scope || any_all ns

-- The names of the dossiers.
abbrev pub names : List Dossier → List String
names [] = []
names (d ∷ ds) = d.name ∷ names ds

abbrev pub ids_named : List String → List Dossier → List ℕ
ids_named ns [] = []
ids_named ns (d ∷ ds) = if contains ns d.name then d.id ∷ ids_named ns ds else ids_named ns ds

-- The names of `set(names) - {d.name for d in found}`.
abbrev pub missing_names : List String → List Dossier → List String
missing_names ns ds = keep (λ n. not (contains (names ds) n)) ns

-- The scope of names that were written out.
unfoldable pub resolve_names : List String → World → Outcome Exc (Option (List ℕ))
resolve_names ns w =
    if any_all ns
    then (if ltb 1 (length ns) then err dossier_error else ok none)
    else (elim (missing_names ns w.dossiers) [
      | [] ↦ ok (some (ids_named ns w.dossiers))
      | n ∷ rest ↦ err dossier_error
    ])

unfoldable pub resolve : Option String → World → Outcome Exc (Option (List ℕ))
unfolding is_blank scope_names resolve_names
resolve none w = err dossier_error
resolve (some scope) w =
    if is_blank scope then err dossier_error else resolve_names (scope_names scope) w
