-- ===== src/Dossiers.antt =====
-- src/wordsworth/dossiers.py and src/wordsworth/dossier_events.py: membership of documents in
-- dossiers, and the record that each change leaves.
pub mod Events
pub mod Membership
pub mod Scope
pub mod View
pub mod Refined
pub mod Audited
use Prim.Native.String.{String}
use wordsworth.Prelude.{
  ℕ, Bool, true, false, ◌||◌, ◌&&◌, not, Option, none, some, List, [], ◌∷◌, ◌++◌, ◌==◌, nat_eq,
  string_eq, option_eq, keep, contains, map, length, ok, err, pure, raise, gets, modify, require,
  ◌>>=◌, ◌>>◌, continue, if◌then◌else◌, ltb,
}
use wordsworth.Text.{strip, lower, split_commas, is_blank}
use wordsworth.Json.{Json, str, num, Fields, end, field}
use wordsworth.States.{State}
use wordsworth.World.{
  World, Db, Exc, Document, Dossier, find_document, draw_id, savepoint, catch_integrity,
  dossier_error, value_error, integrity_error, missing_audit_stream,
}
use wordsworth.Audit.{Host, append, current_state}

-- `ALL`
abbrev pub all_scope : String
all_scope = "alle"

-- `select(Dossier).where(Dossier.name == name)` … `.first()`
unfoldable pub by_name : String → List Dossier → Option Dossier
by_name n [] = none
by_name n (d ∷ ds) = if d.name == n then some d else by_name n ds

unfoldable pub by_id : ℕ → List Dossier → Option Dossier
by_id i [] = none
by_id i (d ∷ ds) = if d.id == i then some d else by_id i ds

-- Whether the table has the dossier.
unfoldable pub has_dossier : ℕ → List Dossier → Bool
has_dossier i [] = false
has_dossier i (d ∷ ds) = d.id == i || has_dossier i ds

-- `session.get(DossierDocument, (dossier_id, document_id)) is not None`
unfoldable pub is_member : ℕ → ℕ → List (ℕ × ℕ) → Bool
is_member dossier doc [] = false
is_member dossier doc ((i, d) ∷ ms) = (i == dossier && d == doc) || is_member dossier doc ms

unfoldable pub without_member : ℕ → ℕ → List (ℕ × ℕ) → List (ℕ × ℕ)
without_member dossier doc [] = []
without_member dossier doc ((i, d) ∷ ms) =
    if i == dossier && d == doc
    then without_member dossier doc ms
    else (i, d) ∷ without_member dossier doc ms

-- The insert of a dossier, which the unique index on its name may refuse.
unfoldable pub insert_dossier : String → Db Dossier
unfolding by_name draw_id
insert_dossier name = do
  i ← draw_id
  taken ← gets (λ w. by_name name w.dossiers)
  elim taken [
    | some _ ↦ raise integrity_error
    | none ↦ λ w.
        let d : Dossier = record { id = i; name = name } in
        (ok d, record w { dossiers = w.dossiers ++ d ∷ [] })
  ]

unfoldable pub found_or_raise : Option Dossier → Db Dossier
found_or_raise (some d) = pure d
found_or_raise none = raise integrity_error

-- The name of a dossier that may be used: not blank, and not the word for every dossier.
unfoldable pub checked_name : String → Db String
unfolding strip lower
checked_name name = do
  let n = strip name
  require (not (n == "")) dossier_error
  require (not (lower n == all_scope)) dossier_error
  pure n

unfoldable pub ensure : String → Db Dossier
unfolding checked_name insert_dossier found_or_raise by_name
ensure name = do
  n ← checked_name name
  found ← gets (λ w. by_name n w.dossiers)
  elim found [
    | some d ↦ pure d
    | none ↦
        catch_integrity (savepoint (insert_dossier n))
          (do again ← gets (λ w. by_name n w.dossiers); found_or_raise again)
  ]
