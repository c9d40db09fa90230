-- ===== src/ReleaseDeleted.antt =====
-- src/wordsworth/release_deleted.py: the keys of documents that were deleted before a deletion
-- released them. Each release is a session of its own.
pub mod Idempotent
use Prim.Native.Char.{code}
use Prim.Native.String.{String, [] as empty, ◌∷◌ as cons_text}
use wordsworth.Prelude.{
  ℕ, Bool, true, false, not, ◌&&◌, Option, none, some, List, [], ◌∷◌, ◌==◌, nat_eq, option_eq, pure,
  raise, gets, modify, ◌>>=◌, ◌>>◌, map, if◌then◌else◌,
}
use wordsworth.Json.{str, end, field}
use wordsworth.States.{State, deleted, state_eq}
use wordsworth.World.{World, Db, Exc, Document, find_document, set_document, savepoint, other}
use wordsworth.Audit.{Host, append, current_state}
use wordsworth.Deletion.{released_object_key}

-- What reading a field of `None` raises
abbrev pub no_such_row : Exc
no_such_row = other "attributeerror" none none

-- `DELETED_KEY_PREFIX`, and the test of `LIKE 'deleted/%'`
abbrev pub deleted_key_prefix : String
deleted_key_prefix = "deleted/"

unfoldable pub starts_with : String → String → Bool
starts_with empty s = true
starts_with (cons_text c p) empty = false
starts_with (cons_text c p) (cons_text d s) = code c == code d && starts_with p s

-- `find_candidates`, over the rows of documents with the states that they are in
unfoldable pub candidates_in : (ℕ → Option State) → List Document → List (ℕ × String)
unfolding starts_with
candidates_in state [] = []
candidates_in state (d ∷ ds) =
    if state d.id == some deleted && not (starts_with deleted_key_prefix d.object_key)
    then (d.id, d.object_key) ∷ candidates_in state ds
    else candidates_in state ds

unfoldable pub find_candidates : World → List (ℕ × String)
unfolding candidates_in current_state
find_candidates w = candidates_in (λ d. current_state d w) w.documents

module _ (h : Host) where
  -- `release`
  unfoldable pub release : ℕ → String → Db (Unit {0})
  unfolding find_document set_document released_object_key
  release d former_key = do
    found ← gets (λ w. find_document d w.documents)
    elim found [
      | none ↦ raise no_such_row
      | some doc ↦ do
        modify (λ w. record w {
          documents =
              set_document d (λ x. record x { object_key = released_object_key h d }) w.documents;
        })
        append h d (some deleted) deleted "release-key"
            (field "released_object_key" (str former_key) end)
        pure tt
    ]

  unfoldable pub release_each : List (ℕ × String) → Db (Unit {0})
  unfolding release
  release_each [] = pure tt
  release_each ((d, key) ∷ cs) = do savepoint (release d key); release_each cs

  -- `run`: the ids that were found, and those that were released
  unfoldable pub run : Bool → Db (List ℕ × List ℕ)
  unfolding find_candidates release_each
  run apply = do
    cs ← gets find_candidates
    if not apply
        then pure (map (λ c. c.0) cs, [])
        else release_each cs >> pure (map (λ c. c.0) cs, map (λ c. c.0) cs)
